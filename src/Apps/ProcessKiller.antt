-- ===== src/Apps/ProcessKiller.antt =====
-- src/apps/processkiller/processkiller.py: the list of processes, its filter, and the kill.
pub mod Laws
mod Tests
use julius_os.Prelude.{
  ℕ, Bool, true, false, Option, none, some, List, [], ◌∷◌, ◌++◌, length, get_elem?, drop_last,
  nonempty, keep, take, if◌then◌else◌,
}
use julius_os.Prelude.Text.{Text, is_in}
use julius_os.Events.{
  Key, k_return, k_backspace, k_escape, k_up, k_down, k_f, k_k, k_r, is, Event, keydown,
}
use julius_os.Outcome.{Outcome, done, raised}
use julius_os.Cursor.{Cursor, top, down, up, rows}
use julius_os.Apps.Table.{Answer, output, failed, table}

pub record Process : Type 0 where
  pub pid : Text
  pub name : Text
  pub cpu : Text
  pub mem : Text

pub data Mode : Type 0 where
  list filter : Mode

-- What the status line says: the number of processes, the process that was killed, or an error.
pub data Status : Type 0 where
  press_r : Status
  counted : ℕ → Status
  killed error : Text → Status

-- `kills` are the pids that `kill -9` was called for, the latest first.
pub record ProcessKiller : Type 0 where
  pub procs : List Process
  pub cursor : Cursor
  pub status : Status
  pub filter : Text
  pub mode : Mode
  pub kills : List Text

abbrev pub init : ProcessKiller
init = record { procs = []; cursor = top; status = press_r; filter = []; mode = list; kills = [] }

-- What the programs answer during one call: `ps`, and the exception of running `kill` if it has
-- one.
pub record Answers : Type 0 where
  pub ps : Answer
  pub kill : Option Text

-- The process of a line of at least four words.
unfoldable pub process : List Text → List Process
process (pid ∷ name ∷ cpu ∷ mem ∷ _) =
    record { pid = pid; name = take 14 name; cpu = cpu; mem = mem } ∷ []
process _ = []

unfoldable pub processes : List (List Text) → List Process
unfolding process
processes [] = []
processes (l ∷ ls) = process l ++ processes ls

-- `space` is Python's white space and `lower` its `str.lower`.
module _ (space : ℕ → Bool) (lower : Text → Text) where
  unfoldable pub refresh : Answer → ProcessKiller → ProcessKiller
  unfolding processes
  refresh (output t) s =
      let ps = processes (table space 1 t) in record s { procs = ps; status = counted (length ps) }
  refresh (failed e) s = record s { status = error e }

  -- `kill` itself does not fail the call: its exit status is not looked at.
  unfoldable pub kill : Answers → Text → ProcessKiller → ProcessKiller
  unfolding refresh
  kill a pid s = elim a.kill [
    | none ↦ refresh a.ps (record s { kills = pid ∷ s.kills; status = killed pid })
    | some e ↦ record s { kills = pid ∷ s.kills; status = error e }
  ]

  unfoldable pub matches : Text → Process → Bool
  matches f p = is_in (lower f) (lower p.name)

  unfoldable pub filtered_procs : ProcessKiller → List Process
  unfolding matches
  filtered_procs s = if nonempty s.filter then keep (matches s.filter) s.procs else s.procs

  -- The rows that `draw_list` shows, each with whether it is drawn as the selected one.
  unfoldable pub drawn : ProcessKiller → List (Process × Bool)
  unfolding filtered_procs
  drawn s = rows 9 s.cursor (filtered_procs s)

  -- K on the process at the selection; past the end it is IndexError.
  unfoldable pub kill_at : Answers → ProcessKiller → Option Process → Outcome ProcessKiller
  unfolding kill
  kill_at a s none = raised s
  kill_at a s (some p) = done (kill a p.pid s)

  unfoldable pub list_key : Answers → ProcessKiller → Key → Outcome ProcessKiller
  unfolding refresh kill_at filtered_procs
  list_key a s key =
      let procs = filtered_procs s in
      if is k_down key
      then done (record s { cursor = down 9 (length procs) s.cursor })
      else if is k_up key
      then done (record s { cursor = up s.cursor })
      else if is k_r key
      then done (refresh a.ps s)
      else if is k_k key
      then (if nonempty procs then kill_at a s (get_elem? procs s.cursor.selected) else done s)
      else if is k_f key
      then done (record s { mode = Mode.filter; filter = [] })
      else done s

  unfoldable pub filter_key : ProcessKiller → Key → Text → ProcessKiller
  filter_key s key unicode =
      if is k_return key
      then record s { mode = list; cursor = top }
      else if is k_backspace key
      then record s { filter = drop_last s.filter }
      else if is k_escape key
      then record s { mode = list; filter = [] }
      else record s { filter = s.filter ++ unicode }

  unfoldable pub handle_input : Answers → ProcessKiller → Event → Outcome ProcessKiller
  unfolding list_key filter_key
  handle_input a s (keydown key unicode) = elim s.mode [
    | list ↦ list_key a s key
    | Mode.filter ↦ done (filter_key s key unicode)
  ]
  handle_input a s _ = done s
