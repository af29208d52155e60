-- ===== src/Apps/Todo/View.antt =====
-- The filtered view of the task list under the two writes through it.
use julius_os.Prelude.{
  ℕ, zero, suc, ◌+◌, ◌-◌, ◌≤◌, ◌<◌, ◌≡◌, refl, ap, Bool, true, some, List, [], ◌∷◌, map, ◌≢◌, arith,
  length, get_elem?, set, erase_at, keep, if◌then◌else◌, Bool-cases, inl, inr,
}
use julius_os.Prelude.Text.{text_eq→eq, text_eq_refl}
use julius_os.Apps.Todo.{
  Task, Filter, every, pending, selects, flip, toggle_nth, task_eq, remove_first,
}

-- What the toggled task does to the view: it leaves a view of one kind, and stays in the full one.
abbrev pub toggled_view : Filter → List Task → ℕ → Task → List Task
toggled_view every v n t = set v n (flip t)
toggled_view pending v n t = erase_at v n
toggled_view Filter.finished v n t = erase_at v n

pub keep-every : (ts : List Task) → keep (selects every) ts ≡ ts
unfolding selects
keep-every [] = refl
keep-every (t ∷ ts) = ap (λ r. t ∷ r) (keep-every ts)

pub keep-toggle_nth :
    (f : Filter) (ts : List Task) (n : ℕ) (t : Task)
    → get_elem? (keep (selects f) ts) n ≡ some t
    → keep (selects f) (toggle_nth (selects f) ts n) ≡ toggled_view f (keep (selects f) ts) n t
unfolding toggle_nth selects
keep-toggle_nth f [] n t e = cc
keep-toggle_nth every (u ∷ ts) zero t e = ground (arith, keep-every ts)
keep-toggle_nth every (u ∷ ts) (suc n) t e = ground (arith, keep-toggle_nth every ts n t)
keep-toggle_nth f (u ∷ ts) zero t e = ground (arith, keep-toggle_nth f ts zero t)
keep-toggle_nth f (u ∷ ts) (suc n) t e =
    ground (arith, keep-toggle_nth f ts n t, keep-toggle_nth f ts (suc n) t)

-- The toggle changes no text and no number of tasks.
pub texts-toggle_nth :
    (p : Task → Bool) (ts : List Task) (n : ℕ)
    → map (λ t. t.text) (toggle_nth p ts n) ≡ map (λ t. t.text) ts
unfolding toggle_nth
texts-toggle_nth p [] n = refl
texts-toggle_nth p (t ∷ ts) n = ground (arith, texts-toggle_nth p ts (if p t then n - 1 else n))

-- How often a task stands in a list.
abbrev pub count : Task → List Task → ℕ
count t [] = 0
count t (u ∷ us) = (if task_eq t u then 1 else 0) + count t us

task_eq→eq : (a b : Task) → task_eq a b ≡ true → a ≡ b
unfolding task_eq
task_eq→eq a b h = ground (arith, text_eq→eq a.text b.text)

-- One copy of the removed task goes, and no other task.
pub count-remove_first :
    (t u : Task) (ts : List Task)
    → count t ts ≢ 0
    → count u (remove_first t ts) + (if task_eq u t then 1 else 0) ≡ count u ts
unfolding remove_first
count-remove_first t u [] h = absurd (h refl)
count-remove_first t u (v ∷ vs) h = elim (Bool-cases (task_eq t v)) [
  | inl same ↦ rw (same, task_eq→eq t v same) (omega arith)
  | inr other ↦ ground (arith, count-remove_first t u vs)
]

task_eq_refl : (t : Task) → task_eq t t ≡ true
unfolding task_eq
task_eq_refl t = ground (arith, text_eq_refl t.text)

-- A task of the view is one of the tasks.
pub count-keep :
    (p : Task → Bool) (ts : List Task) (n : ℕ) (t : Task)
    → get_elem? (keep p ts) n ≡ some t
    → 0 < count t ts
count-keep p [] n t e = cc
count-keep p (u ∷ ts) zero t e = ground (arith, task_eq_refl t, count-keep p ts zero t)
count-keep p (u ∷ ts) (suc n) t e = ground (arith, count-keep p ts n t, count-keep p ts (suc n) t)

pub length-remove_first : (t : Task) (ts : List Task) → length ts ≤ length (remove_first t ts) + 1
unfolding remove_first
length-remove_first t [] = omega arith
length-remove_first t (u ∷ us) = ground (arith, length-remove_first t us)

pub length-toggle_nth :
    (p : Task → Bool) (ts : List Task) (n : ℕ) → length (toggle_nth p ts n) ≡ length ts
unfolding toggle_nth
length-toggle_nth p [] n = refl
length-toggle_nth p (t ∷ ts) n = ground (arith, length-toggle_nth p ts (if p t then n - 1 else n))
