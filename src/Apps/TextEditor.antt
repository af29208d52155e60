-- ===== src/Apps/TextEditor.antt =====
-- src/apps/texteditor/texteditor.py: lines of text and a cursor, the edits, loading and saving.
-- The file system is a function from names to contents; `os_error` says which names cannot be
-- opened, and with what message.
pub mod Lines
pub mod Document
pub mod Edits
pub mod Bounds
pub mod RoundTrip
mod Tests
use julius_os.Prelude.{
  ℕ, zero, suc, ◌+◌, ◌-◌, ◌<◌, ◌≤◌, min, Bool, true, false, ◌&&◌, Option, none, some, List, [], ◌∷◌,
  ◌++◌, length, get_elem?, set, take, drop, drop_last, nonempty, erase_at, ltb, leb, ◌==◌,
  if◌then◌else◌,
}
use julius_os.Prelude.Text.{Text, codes, text_eq}
use julius_os.Events.{
  Key, k_return, k_backspace, k_escape, k_up, k_down, k_left, k_right, k_s, is, Event, keydown,
  key_index,
}
use julius_os.Outcome.{Outcome, done, raised, ◌>>=◌}

pub data Mode : Type 0 where
  input_name edit : Mode

abbrev pub Files : Type 0
Files = Text → Option Text

pub record TextEditor : Type 0 where
  pub lines : List Text
  pub cursor_x : ℕ
  pub cursor_y : ℕ
  pub scroll : ℕ
  pub filename : Text
  pub mode : Mode
  pub status : Text
  pub modified : Bool
  pub disk : Files

abbrev pub newline_char : ℕ
newline_char = 10

unfoldable pub init : Files → TextEditor
init disk = record {
  lines = [] ∷ [];
  cursor_x = 0;
  cursor_y = 0;
  scroll = 0;
  filename = [];
  mode = input_name;
  status = codes "Enter filename";
  modified = false;
  disk = disk;
}

-- `l.insert(i, x)`
abbrev pub insert_at : List Text → ℕ → Text → List Text
insert_at xs zero x = x ∷ xs
insert_at [] (suc i) x = x ∷ []
insert_at (y ∷ ys) (suc i) x = y ∷ insert_at ys i x

-- `"\n".join(lines)`
unfoldable pub join : List Text → Text
join [] = []
join (l ∷ []) = l
join (l ∷ m ∷ ls) = l ++ newline_char ∷ join (m ∷ ls)

-- `text.split("\n")`, with the line that is being read
unfoldable pub split_from : Text → Text → List Text
split_from line [] = line ∷ []
split_from line (c ∷ cs) =
    let ended = split_from [] cs in
    let longer = split_from (line ++ c ∷ []) cs in
    if c == newline_char then line ∷ ended else longer

unfoldable pub split : Text → List Text
unfolding split_from
split text = split_from [] text

-- Reading a file in text mode: "\r\n" and "\r" are read as "\n".
unfoldable pub universal_newlines : Text → Text
universal_newlines [] = []
universal_newlines (c ∷ []) = (if c == 13 then newline_char else c) ∷ []
universal_newlines (c ∷ d ∷ cs) =
    let rest = universal_newlines (d ∷ cs) in
    if c == 13 then (if d == newline_char then rest else newline_char ∷ rest) else c ∷ rest

unfoldable pub insert_char : TextEditor → Text → Outcome TextEditor
insert_char s ch = elim (get_elem? s.lines s.cursor_y) [
  | none ↦ raised s
  | some line ↦ done (record s {
    lines = set s.lines s.cursor_y (take s.cursor_x line ++ (ch ++ drop s.cursor_x line));
    cursor_x = s.cursor_x + 1;
    modified = true;
  })
]

-- The line after the cursor's own joins it: the branch of `backspace` at the start of a line.
unfoldable pub join_previous : TextEditor → Outcome TextEditor
join_previous s = elim (get_elem? s.lines (s.cursor_y - 1)) [
  | none ↦ raised s
  | some prev ↦ elim (get_elem? s.lines s.cursor_y) [
    | none ↦ raised (record s { cursor_x = length prev })
    | some line ↦ done (record s {
      cursor_x = length prev;
      lines = erase_at (set s.lines (s.cursor_y - 1) (prev ++ line)) s.cursor_y;
      cursor_y = s.cursor_y - 1;
      modified = true;
    })
  ]
]

unfoldable pub backspace : TextEditor → Outcome TextEditor
unfolding join_previous
backspace s =
    if ltb 0 s.cursor_x
    then elim (get_elem? s.lines s.cursor_y) [
      | none ↦ raised s
      | some line ↦ done (record s {
        lines = set s.lines s.cursor_y (take (s.cursor_x - 1) line ++ drop s.cursor_x line);
        cursor_x = s.cursor_x - 1;
        modified = true;
      })
    ]
    else if ltb 0 s.cursor_y
    then join_previous s
    else done s

unfoldable pub newline : TextEditor → Outcome TextEditor
newline s = elim (get_elem? s.lines s.cursor_y) [
  | none ↦ raised s
  | some line ↦ done (record s {
    lines =
        insert_at (set s.lines s.cursor_y (take s.cursor_x line)) (s.cursor_y + 1)
          (drop s.cursor_x line);
    cursor_y = s.cursor_y + 1;
    cursor_x = 0;
    modified = true;
  })
]

-- The cursor is held within the line of its row, after a move to another row.
unfoldable pub settle : TextEditor → Outcome TextEditor
settle s = elim (get_elem? s.lines s.cursor_y) [
  | none ↦ raised s
  | some line ↦ done (record s { cursor_x = min s.cursor_x (length line) })
]

unfoldable pub go_right : TextEditor → Outcome TextEditor
go_right s = elim (get_elem? s.lines s.cursor_y) [
  | none ↦ raised s
  | some line ↦ done (record s { cursor_x = min (length line) (s.cursor_x + 1) })
]

abbrev pub scroll_up : TextEditor → TextEditor
scroll_up s = record s { scroll = if ltb s.cursor_y s.scroll then s.scroll - 1 else s.scroll }

abbrev pub scroll_down : TextEditor → TextEditor
scroll_down s = record s {
  scroll = if leb (s.scroll + 13) s.cursor_y then s.scroll + 1 else s.scroll;
}

unfoldable pub go_up : TextEditor → Outcome TextEditor
unfolding settle
go_up s = do
  s' ← if ltb 0 s.cursor_y then settle (record s { cursor_y = s.cursor_y - 1 }) else done s
  done (scroll_up s')

unfoldable pub go_down : TextEditor → Outcome TextEditor
unfolding settle
go_down s = do
  s' ←
      if ltb (s.cursor_y + 1) (length s.lines)
      then settle (record s { cursor_y = s.cursor_y + 1 })
      else done s
  done (scroll_down s')

abbrev pub write : Files → Text → Text → Files
write disk name content n = if text_eq n name then some content else disk n

module _ (os_error : Text → Option Text) where
  unfoldable pub save : TextEditor → TextEditor
  save s = elim (os_error s.filename) [
    | some e ↦ record s { status = codes "Error: " ++ e }
    | none ↦ record s {
      disk = write s.disk s.filename (join s.lines);
      status = codes "Saved " ++ s.filename;
      modified = false;
    }
  ]

  unfoldable pub load : TextEditor → TextEditor
  load s = elim (s.disk s.filename) [
    | some content ↦ elim (os_error s.filename) [
      | some e ↦ record s { status = codes "Error: " ++ e }
      | none ↦ record s {
        lines = split (universal_newlines content);
        status = codes "Opened " ++ s.filename;
        cursor_x = 0;
        cursor_y = 0;
        mode = edit;
      }
    ]
    | none ↦ record s {
      lines = [] ∷ [];
      status = codes "New file: " ++ s.filename;
      cursor_x = 0;
      cursor_y = 0;
      mode = edit;
    }
  ]

  unfoldable pub name_key : TextEditor → Key → Text → TextEditor
  unfolding load
  name_key s key unicode =
      if is k_return key && nonempty s.filename
      then load s
      else if is k_backspace key
      then record s { filename = drop_last s.filename }
      else if is k_escape key
      then record s { filename = [] }
      else record s { filename = s.filename ++ unicode }

  -- `ctrl` is `pygame.key.get_mods() & KMOD_CTRL`.
  unfoldable pub edit_key : TextEditor → Bool → Key → Text → Outcome TextEditor
  edit_key s ctrl key unicode =
      if is k_escape key
      then done (record s {
        mode = input_name;
        filename = [];
        lines = [] ∷ [];
        cursor_x = 0;
        cursor_y = 0;
      })
      else if is k_s key && ctrl
      then done (save s)
      else if is k_return key
      then newline s
      else if is k_backspace key
      then backspace s
      else if is k_left key
      then done (record s { cursor_x = s.cursor_x - 1 })
      else if is k_right key
      then go_right s
      else if is k_up key
      then go_up s
      else if is k_down key
      then go_down s
      else if nonempty unicode
      then insert_char s unicode
      else done s

  unfoldable pub handle_input : Bool → TextEditor → Event → Outcome TextEditor
  unfolding name_key edit_key
  handle_input ctrl s (keydown key unicode) = elim s.mode [
    | input_name ↦ done (name_key s key unicode)
    | edit ↦ edit_key s ctrl key unicode
  ]
  handle_input ctrl s _ = done s
