-- ===== src/Apps/Passwords.antt =====
-- src/apps/passwords/passwords.py: the stored passwords, the entry that is typed and the entry that
-- is shown.
pub mod Laws
mod Tests
use julius_os.Prelude.{
  ℕ, ◌-◌, Bool, true, false, Option, none, some, List, [], ◌∷◌, ◌++◌, length, map, take, get_elem?,
  erase_at, drop_last, nonempty, ltb, if◌then◌else◌,
}
use julius_os.Prelude.Text.{Text, codes}
use julius_os.Events.{
  Key, k_return, k_backspace, k_escape, k_up, k_down, k_n, k_d, k_v, k_s, k_h, is, Event, keydown,
}
use julius_os.Outcome.{Outcome, done, raised}
use julius_os.Cursor.{Cursor, top, down, up, retreat}

-- The field `pass` of the source is `password` here.
pub record Entry : Type 0 where
  pub site : Text
  pub user : Text
  pub password : Text

pub data Mode : Type 0 where
  list add view : Mode

pub data Stage : Type 0 where
  at_site at_user at_password : Stage

-- `saved` is what the app last read from or wrote to PASS_FILE.
pub record PasswordManager : Type 0 where
  pub entries : List Entry
  pub cursor : Cursor
  pub mode : Mode
  pub status : Text
  pub inputs : Entry
  pub stage : Stage
  pub shown : Bool
  pub saved : Option (List Entry)

abbrev pub blank : Entry
blank = record { site = []; user = []; password = [] }

unfoldable pub load : Option (List Entry) → List Entry
load none = []
load (some es) = es

unfoldable pub init : Option (List Entry) → PasswordManager
unfolding load
init file = record {
  entries = load file;
  cursor = top;
  mode = list;
  status = [];
  inputs = blank;
  stage = at_site;
  shown = false;
  saved = file;
}

unfoldable pub save : PasswordManager → PasswordManager
save s = record s { saved = some s.entries }

-- `"*" * len(text)`
unfoldable pub mask : Text → Text
mask t = map (λ _. b'*') t

-- What `draw_view` shows of the password.
unfoldable pub view_password : PasswordManager → Entry → Text
unfolding mask
view_password s e = take 20 (if s.shown then e.password else mask e.password)

-- `inputs[stage]`, read and written.
unfoldable pub input_at : Stage → Entry → Text
input_at at_site e = e.site
input_at at_user e = e.user
input_at at_password e = e.password

unfoldable pub with_input : Stage → Text → Entry → Entry
with_input at_site t e = record e { site = t }
with_input at_user t e = record e { user = t }
with_input at_password t e = record e { password = t }

unfoldable pub delete_selected : PasswordManager → Outcome PasswordManager
unfolding save retreat
delete_selected s =
    if nonempty s.entries
    then (if ltb s.cursor.selected (length s.entries)
        then done
            (record (save (record s {
              entries = erase_at s.entries s.cursor.selected;
              cursor = retreat s.cursor;
            })) { status = codes "Deleted" })
        else raised s)
    else done s

unfoldable pub list_key : PasswordManager → Key → Outcome PasswordManager
unfolding delete_selected down up
list_key s key =
    if is k_down key
    then done (record s { cursor = down 9 (length s.entries) s.cursor })
    else if is k_up key
    then done (record s { cursor = up s.cursor })
    else if is k_n key
    then done (record s { mode = add; stage = at_site; inputs = blank })
    else if is k_v key
    then done (if nonempty s.entries then record s { mode = view; shown = false } else s)
    else if is k_d key
    then delete_selected s
    else done s

-- RETURN on a field that is filled in.
unfoldable pub next_stage : PasswordManager → PasswordManager
unfolding save
next_stage s = elim s.stage [
  | at_site ↦ record s { stage = at_user }
  | at_user ↦ record s { stage = at_password }
  | at_password ↦ record (save (record s { entries = s.entries ++ s.inputs ∷ [] })) {
    mode = list;
    status = codes "Saved " ++ s.inputs.site;
  }
]

unfoldable pub add_key : PasswordManager → Key → Text → PasswordManager
unfolding next_stage input_at with_input
add_key s key unicode =
    let typed = input_at s.stage s.inputs in
    if is k_return key
    then (if nonempty typed then next_stage s else s)
    else if is k_backspace key
    then record s { inputs = with_input s.stage (drop_last typed) s.inputs }
    else if is k_escape key
    then record s { mode = list }
    else record s { inputs = with_input s.stage (typed ++ unicode) s.inputs }

unfoldable pub view_key : PasswordManager → Key → PasswordManager
view_key s key =
    if is k_escape key
    then record s { mode = list }
    else if is k_s key
    then record s { shown = true }
    else if is k_h key
    then record s { shown = false }
    else s

unfoldable pub handle_input : PasswordManager → Event → Outcome PasswordManager
unfolding list_key add_key view_key
handle_input s (keydown key unicode) = elim s.mode [
  | list ↦ list_key s key
  | add ↦ done (add_key s key unicode)
  | view ↦ done (view_key s key)
]
handle_input s _ = done s
