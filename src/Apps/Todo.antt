-- ===== src/Apps/Todo.antt =====
-- src/apps/todo/todo.py: the task list, its filters, and the keys that change it.
pub mod View
pub mod Laws
mod Tests
use julius_os.Prelude.{
  ℕ, suc, ◌+◌, ◌-◌, Bool, true, not, ◌&&◌, Option, none, some, List, [], ◌∷◌, ◌++◌, length,
  get_elem?, drop_last, nonempty, keep, ◌==◌, if◌then◌else◌,
}
use julius_os.Prelude.Text.{Text, text_eq}
use julius_os.Events.{
  Key, k_return, k_backspace, k_escape, k_up, k_down, k_d, k_f, k_n, is, Event, keydown, key_index,
}
use julius_os.Outcome.{Outcome, done, raised}
use julius_os.Cursor.{Cursor, top, down, up, retreat}

pub record Task : Type 0 where
  pub text : Text
  pub finished : Bool

pub data Mode : Type 0 where
  list add : Mode

pub data Filter : Type 0 where
  every pending finished : Filter

-- `saved` is what the app last read from or wrote to julius_todo.json, `none` where there was no such
-- file; the app reads the file at its start only.
pub record Todo : Type 0 where
  pub tasks : List Task
  pub cursor : Cursor
  pub mode : Mode
  pub input : Text
  pub filter : Filter
  pub saved : Option (List Task)

unfoldable pub load : Option (List Task) → List Task
load none = []
load (some tasks) = tasks

unfoldable pub init : Option (List Task) → Todo
unfolding load
init file = record {
  tasks = load file;
  cursor = top;
  mode = list;
  input = [];
  filter = every;
  saved = file;
}

unfoldable pub save : Todo → Todo
save s = record s { saved = some s.tasks }

-- Whether the filter lets a task through.
unfoldable pub selects : Filter → Task → Bool
selects every t = true
selects pending t = not t.finished
selects Filter.finished t = t.finished

unfoldable pub filtered : Todo → List Task
unfolding selects
filtered s = elim s.filter [
  | Filter.finished ↦ keep (selects Filter.finished) s.tasks
  | pending ↦ keep (selects pending) s.tasks
  | every ↦ s.tasks
]

abbrev pub flip : Task → Task
flip t = record t { finished = not t.finished }

-- The write through `tasks[n]`: the filtered list holds the same objects as the list of all tasks,
-- so that the write shows in both.
unfoldable pub toggle_nth : (Task → Bool) → List Task → ℕ → List Task
toggle_nth p [] n = []
toggle_nth p (t ∷ ts) n =
    let rest = toggle_nth p ts (if p t then n - 1 else n) in
    if p t && (n == 0) then flip t ∷ ts else t ∷ rest

-- `==` of two dictionaries
unfoldable pub task_eq : Task → Task → Bool
task_eq a b = text_eq a.text b.text && (if a.finished then b.finished else not b.finished)

-- `list.remove`: the first task that is equal.
unfoldable pub remove_first : Task → List Task → List Task
unfolding task_eq
remove_first t [] = []
remove_first t (u ∷ us) = if task_eq t u then us else u ∷ remove_first t us

unfoldable pub cycle : Filter → Filter
cycle every = pending
cycle pending = Filter.finished
cycle Filter.finished = every

-- RETURN on a nonempty view; `tasks[selected]` raises IndexError past the end.
unfoldable pub toggle_selected : Todo → Outcome Todo
unfolding save
toggle_selected s = elim (get_elem? (filtered s) s.cursor.selected) [
  | none ↦ raised s
  | some t ↦
      done (save (record s { tasks = toggle_nth (selects s.filter) s.tasks s.cursor.selected }))
]

-- D on a nonempty view
unfoldable pub delete_selected : Todo → Outcome Todo
unfolding save
delete_selected s = elim (get_elem? (filtered s) s.cursor.selected) [
  | none ↦ raised s
  | some t ↦ done (save (record s { tasks = remove_first t s.tasks; cursor = retreat s.cursor }))
]

unfoldable pub list_key : Todo → Key → Outcome Todo
unfolding cycle
list_key s key =
    let tasks = filtered s in
    if is k_down key
    then done (record s { cursor = down 10 (length tasks) s.cursor })
    else if is k_up key
    then done (record s { cursor = up s.cursor })
    else if is k_n key
    then done (record s { mode = add; input = [] })
    else if is k_return key
    then (if nonempty tasks then toggle_selected s else done s)
    else if is k_d key
    then (if nonempty tasks then delete_selected s else done s)
    else if is k_f key
    then done (record s { filter = cycle s.filter; cursor = top })
    else done s

unfoldable pub add_key : Todo → Key → Text → Todo
unfolding save
add_key s key unicode =
    if is k_return key && nonempty s.input
    then (let s' =
          save (record s {
            tasks = s.tasks ++ record { text = s.input; finished = Bool.false } ∷ [];
          }) in
        record s' { mode = list; input = [] })
    else if is k_backspace key
    then record s { input = drop_last s.input }
    else if is k_escape key
    then record s { mode = list; input = [] }
    else record s { input = s.input ++ unicode }

unfoldable pub handle_input : Todo → Event → Outcome Todo
unfolding list_key add_key
handle_input s (keydown key unicode) = elim s.mode [
  | list ↦ list_key s key
  | add ↦ done (add_key s key unicode)
]
handle_input s _ = done s
