-- ===== src/System/StateFiles.antt =====
-- The state files that src/system/julius_bridge.py reads: lines of a key, `=` and a value.
mod Entries
mod Tests
use julius_os.Prelude.{ℕ, Bool, true, false, Option, none, some, List, [], ◌∷◌, ◌==◌, if◌then◌else◌}
use julius_os.Prelude.Int.{ℤ, pos}
use julius_os.Prelude.Text.{Text, codes, text_eq}
use julius_os.Apps.TextEditor.{split}

abbrev pub State : Type 0
State = List (Text × Text)

-- `state[k] = v`: in its place, or at the end.
unfoldable pub put : Text → Text → State → State
put k v [] = (k, v) ∷ []
put k v (e ∷ s) = let rest = put k v s in if text_eq k e.0 then (e.0, v) ∷ s else e ∷ rest

-- `state.get(k)`
unfoldable pub get : Text → State → Option Text
get k [] = none
get k (e ∷ s) = let rest = get k s in if text_eq k e.0 then some e.1 else rest

-- `line.split('=', 1)`, if the line has a `=`.
unfoldable pub cut : Text → Option (Text × Text)
cut [] = none
cut (c ∷ cs) =
    let rest = cut cs in
    if c == b'=' then some ([], cs) else elim rest [ none ↦ none | some kv ↦ some (c ∷ kv.0, kv.1) ]

-- `strip` is Python's, over Unicode's white space; `to_int` is `int`, none for an exception.
module _ (strip : Text → Text) (to_int : Text → Option ℤ) where
  unfoldable pub add_entry : Option (Text × Text) → State → State
  unfolding put
  add_entry none s = s
  add_entry (some kv) s = put (strip kv.0) (strip kv.1) s

  unfoldable pub read_lines : List Text → State → State
  unfolding cut add_entry
  read_lines [] s = s
  read_lines (l ∷ ls) s = read_lines ls (add_entry (cut (strip l)) s)

  -- The content of the file, or none where it is missing or cannot be opened.
  unfoldable pub read_state : Option Text → State
  unfolding read_lines
  read_state none = []
  read_state (some content) = read_lines (split content) []

  -- `int(state.get(k, d))`, with d again for what is not a number.
  unfoldable pub number_at : Text → ℤ → State → ℤ
  unfolding get
  number_at k d s = elim (get k s) [ none ↦ d | some v ↦ elim (to_int v) [ none ↦ d | some n ↦ n ] ]

  unfoldable pub get_battery_level : Option Text → ℤ
  unfolding number_at read_state
  get_battery_level file = number_at (codes "level") (pos 85) (read_state file)

  unfoldable pub get_charging : Option Text → Bool
  unfolding get read_state
  get_charging file = elim (get (codes "charging") (read_state file)) [
    | none ↦ false
    | some v ↦ text_eq v (codes "1")
  ]

  unfoldable pub get_health_score : Option Text → ℤ
  unfolding number_at read_state
  get_health_score file = number_at (codes "score") (pos 100) (read_state file)
