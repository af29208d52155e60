-- ===== src/Apps/Notes.antt =====
-- src/apps/notes/notes.py: the list of notes, the note that is written and the note that is read.
pub mod Laws
mod Tests
use julius_os.Prelude.{
  ℕ, ◌+◌, ◌-◌, Bool, true, false, ◌&&◌, Option, none, some, List, [], ◌∷◌, ◌++◌, length, get_elem?,
  erase_at, drop_last, nonempty, ltb, if◌then◌else◌,
}
use julius_os.Prelude.Text.{Text, codes}
use julius_os.Events.{
  Key, k_return, k_backspace, k_escape, k_up, k_down, k_n, k_d, k_e, is, Event, keydown,
}
use julius_os.Outcome.{Outcome, done, raised}
use julius_os.Cursor.{Cursor, top, down, up, retreat}
use julius_os.Apps.TextEditor.{split, newline_char}

pub record Note : Type 0 where
  pub title : Text
  pub body : Text

pub data Mode : Type 0 where
  list edit view : Mode

pub data Stage : Type 0 where
  at_title at_body : Stage

-- `saved` is what the app last read from or wrote to NOTES_FILE. In the mode `view` the cursor's scroll is that of the note.
pub record Notes : Type 0 where
  pub notes : List Note
  pub mode : Mode
  pub cursor : Cursor
  pub editing : Text
  pub title : Text
  pub stage : Stage
  pub saved : Option (List Note)

unfoldable pub load : Option (List Note) → List Note
load none = []
load (some ns) = ns

unfoldable pub init : Option (List Note) → Notes
unfolding load
init file = record {
  notes = load file;
  mode = list;
  cursor = top;
  editing = [];
  title = [];
  stage = at_title;
  saved = file;
}

unfoldable pub save : Notes → Notes
save s = record s { saved = some s.notes }

-- D: `pop` of an index out of range is IndexError.
unfoldable pub delete_selected : Notes → Outcome Notes
unfolding save retreat
delete_selected s =
    if nonempty s.notes
    then (if ltb s.cursor.selected (length s.notes)
        then done (
            save
              (record s { notes = erase_at s.notes s.cursor.selected; cursor = retreat s.cursor }))
        else raised s)
    else done s

unfoldable pub list_key : Notes → Key → Outcome Notes
unfolding delete_selected down up
list_key s key =
    if is k_n key
    then done (record s { mode = edit; stage = at_title; title = []; editing = [] })
    else if is k_down key
    then done (record s { cursor = down 12 (length s.notes) s.cursor })
    else if is k_up key
    then done (record s { cursor = up s.cursor })
    else if is k_return key
    then done (
        if nonempty s.notes
        then record s { mode = view; cursor = record { selected = s.cursor.selected; scroll = 0 } }
        else s)
    else if is k_d key
    then delete_selected s
    else done s

unfoldable pub title_key : Notes → Key → Text → Notes
title_key s key unicode =
    if is k_return key && nonempty s.title
    then record s { stage = at_body }
    else if is k_backspace key
    then record s { title = drop_last s.title }
    else if is k_escape key
    then record s { mode = list }
    else record s { title = s.title ++ unicode }

-- ESC stores the note at the end of the list.
unfoldable pub body_key : Notes → Key → Text → Notes
unfolding save
body_key s key unicode =
    if is k_escape key
    then record (save
        (record s { notes = s.notes ++ record { title = s.title; body = s.editing } ∷ [] })) {
          mode = list;
          stage = at_title;
        }
    else if is k_return key
    then record s { editing = s.editing ++ newline_char ∷ [] }
    else if is k_backspace key
    then record s { editing = drop_last s.editing }
    else record s { editing = s.editing ++ unicode }

-- The keys over the note that is read. E takes it out of the list, to be stored again by ESC.
unfoldable pub view_key : Note → Notes → Key → Notes
unfolding split
view_key note s key =
    let at : ℕ → Notes =
      λ y. record s { cursor = record { selected = s.cursor.selected; scroll = y } } in
    if is k_escape key
    then record (at 0) { mode = list }
    else if is k_down key
    then (if ltb (s.cursor.scroll + 12) (length (split note.body))
        then at (s.cursor.scroll + 1)
        else s)
    else if is k_up key
    then (if ltb 0 s.cursor.scroll then at (s.cursor.scroll - 1) else s)
    else if is k_e key
    then record s {
      mode = edit;
      stage = at_body;
      title = note.title;
      editing = note.body;
      notes = erase_at s.notes s.cursor.selected;
    }
    else s

-- `self.notes[self.selected]`
unfoldable pub view_selected : Notes → Key → Outcome Notes
unfolding view_key
view_selected s key = elim (get_elem? s.notes s.cursor.selected) [
  | none ↦ raised s
  | some note ↦ done (view_key note s key)
]

unfoldable pub handle_input : Notes → Event → Outcome Notes
unfolding list_key title_key body_key view_selected
handle_input s (keydown key unicode) = elim s.mode [
  | list ↦ list_key s key
  | edit ↦ elim s.stage [
    | at_title ↦ done (title_key s key unicode)
    | at_body ↦ done (body_key s key unicode)
  ]
  | view ↦ view_selected s key
]
handle_input s _ = done s
