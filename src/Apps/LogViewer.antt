-- ===== src/Apps/LogViewer.antt =====
-- src/apps/logviewer/logviewer.py: the menu of logs, the window over the lines of one, the filter.
pub mod Laws
mod Tests
use julius_os.Prelude.{
  ℕ, ◌+◌, ◌-◌, min, Bool, true, false, ◌||◌, Option, none, some, List, [], ◌∷◌, ◌++◌, map, ◌==◌,
  length, get_elem?, drop_last, nonempty, keep, take, drop, if◌then◌else◌,
}
use julius_os.Prelude.Text.{Text, codes, text_eq, is_in}
use julius_os.Events.{Key, k_return, k_backspace, k_escape, k_up, k_down, k_f, is, Event, keydown}
use julius_os.Outcome.{Outcome, done, raised}
use julius_os.Apps.Table.{Answer, output, failed, strip}
use julius_os.Apps.TextEditor.{newline_char, split, universal_newlines}

pub record Log : Type 0 where
  pub name : Text
  pub path : Text

abbrev pub logs : List Log
logs =
    record { name = codes "Syslog"; path = codes "/var/log/syslog" }
    ∷ record { name = codes "Auth"; path = codes "/var/log/auth.log" }
    ∷ record { name = codes "Kern"; path = codes "/var/log/kern.log" }
    ∷ record { name = codes "Dmesg"; path = codes "dmesg" }
    ∷ record { name = codes "Boot"; path = codes "/var/log/boot.log" }
    ∷ record { name = codes "Messages"; path = codes "/var/log/messages" }
    ∷ []

pub data Mode : Type 0 where
  menu view filter : Mode

-- The status is empty, or the number of lines of the log that was opened last.
pub data Status : Type 0 where
  blank : Status
  counted : ℕ → Status

pub record LogViewer : Type 0 where
  pub mode : Mode
  pub selected : ℕ
  pub lines : List Text
  pub scroll : ℕ
  pub status : Status
  pub filter : Text

abbrev pub init : LogViewer
init = record { mode = menu; selected = 0; lines = []; scroll = 0; status = blank; filter = [] }

-- What is at a path: nothing, a file with its characters, or a file whose reading raises.
pub data Content : Type 0 where
  missing : Content
  content unreadable : Text → Content

-- What the system answers during one call: the command `dmesg`, and the files.
pub record Answers : Type 0 where
  pub dmesg : Answer
  pub file : Text → Content

-- `f.readlines()`, with the line read so far: each line keeps its line feed, and there is no last
-- line without a character.
unfoldable pub lines_from : Text → Text → List Text
lines_from [] [] = []
lines_from (x ∷ line) [] = (x ∷ line) ∷ []
lines_from line (c ∷ cs) =
    let ended = lines_from [] cs in
    let longer = lines_from (line ++ c ∷ []) cs in
    if c == newline_char then (line ++ c ∷ []) ∷ ended else longer

unfoldable pub readlines : Text → List Text
unfolding lines_from
readlines text = lines_from [] (universal_newlines text)

-- The end of the `try`: the window is put on the last twelve lines.
unfoldable pub loaded : List Text → LogViewer → LogViewer
loaded ls s = record s {
  lines = ls;
  scroll = length ls - 12;
  status = counted (length ls);
  mode = view;
}

unfoldable pub load_failed : Text → LogViewer → LogViewer
load_failed e s = record s { lines = (codes "Error: " ++ e) ∷ []; scroll = 0; mode = view }

unfoldable pub from_dmesg : Answer → LogViewer → LogViewer
unfolding loaded load_failed
from_dmesg (output t) s = loaded (split t) s
from_dmesg (failed e) s = load_failed e s

unfoldable pub from_file : Text → Content → LogViewer → LogViewer
unfolding loaded load_failed readlines
from_file path missing s = loaded ((codes "File not found: " ++ path) ∷ []) s
from_file path (content t) s = loaded (readlines t) s
from_file path (unreadable e) s = load_failed e s

unfoldable pub load_log : Answers → Log → LogViewer → LogViewer
unfolding from_dmesg from_file
load_log a log s =
    if text_eq log.path (codes "dmesg")
    then from_dmesg a.dmesg s
    else from_file log.path (a.file log.path) s

-- `LOGS[self.selected]`; past the end it is IndexError.
unfoldable pub load_at : Answers → LogViewer → Option Log → Outcome LogViewer
unfolding load_log
load_at a s none = raised s
load_at a s (some log) = done (load_log a log s)

unfoldable pub menu_key : Answers → LogViewer → Key → Outcome LogViewer
unfolding load_at
menu_key a s key =
    if is k_down key
    then done (record s { selected = min (s.selected + 1) (length logs - 1) })
    else if is k_up key
    then done (record s { selected = s.selected - 1 })
    else if is k_return key
    then load_at a s (get_elem? logs s.selected)
    else done s

unfoldable pub filter_key : LogViewer → Key → Text → LogViewer
filter_key s key unicode =
    if is k_return key
    then record s { mode = view; scroll = 0 }
    else if is k_backspace key
    then record s { filter = drop_last s.filter }
    else if is k_escape key
    then record s { mode = view }
    else record s { filter = s.filter ++ unicode }

-- The colour of a line that is drawn.
pub data Colour : Type 0 where
  red yellow white : Colour

-- `space` is Python's white space and `lower` its `str.lower`.
module _ (space : ℕ → Bool) (lower : Text → Text) where
  unfoldable pub filtered_lines : LogViewer → List Text
  filtered_lines s =
      if nonempty s.filter then keep (λ l. is_in (lower s.filter) (lower l)) s.lines else s.lines

  unfoldable pub colour : Text → Colour
  colour stripped =
      if is_in (codes "error") (lower stripped) || is_in (codes "fail") (lower stripped)
      then red
      else if is_in (codes "warn") (lower stripped)
      then yellow
      else white

  unfoldable pub drawn_line : Text → Text × Colour
  unfolding colour
  drawn_line line = let stripped = take 30 (strip space line) in (stripped, colour stripped)

  -- The lines of the window, as `draw_view` shows them.
  unfoldable pub window : LogViewer → List Text
  unfolding filtered_lines
  window s = take 12 (drop s.scroll (filtered_lines s))

  unfoldable pub draw_view : LogViewer → List (Text × Colour)
  unfolding window drawn_line
  draw_view s = map drawn_line (window s)

  unfoldable pub view_key : LogViewer → Key → LogViewer
  unfolding filtered_lines
  view_key s key =
      let lines = filtered_lines s in
      if is k_down key
      then record s { scroll = min (s.scroll + 1) (length lines - 12) }
      else if is k_up key
      then record s { scroll = s.scroll - 1 }
      else if is k_f key
      then record s { mode = Mode.filter; filter = [] }
      else if is k_escape key
      then record s { mode = menu; filter = []; lines = [] }
      else s

  unfoldable pub handle_input : Answers → LogViewer → Event → Outcome LogViewer
  unfolding menu_key view_key filter_key
  handle_input a s (keydown key unicode) = elim s.mode [
    | menu ↦ menu_key a s key
    | view ↦ done (view_key s key)
    | Mode.filter ↦ done (filter_key s key unicode)
  ]
  handle_input a s _ = done s
