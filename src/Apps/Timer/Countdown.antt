-- ===== src/Apps/Timer/Countdown.antt =====
-- The countdown of src/apps/timer/timer.py, as the main loop draws it at one time after another.
use julius_os.Prelude.{
  ℕ, ◌+◌, ◌-◌, ◌*◌, ◌≤◌, ◌<◌, ◌≡◌, refl, ap, Bool, true, false, ◌&&◌, Option, none, some, List, [],
  ◌∷◌, ◌++◌, map, arith, nonempty, ◌==◌, if◌then◌else◌,
}
use julius_os.Prelude.Text.{Text}
use julius_os.Events.{Key, k_return, k_backspace, k_escape, k_s, is, keydown, key_index}
use julius_os.Outcome.{done, raised, Returns}
use julius_os.Apps.Timer.{
  second, Timer, timer_input, timer_run, Face, done_face, left, remaining, draw_timer_run, run_key,
  Digits, isdigit, int_from, start_countdown, input_key, handle_input,
}

-- The time that remains, on the natural numbers.
remaining_lem :
    (now : ℕ) (s : Timer)
    → remaining now s
      ≡ (if s.tm_running then s.tm_seconds * second + s.tm_start - now else s.tm_seconds * second)
unfolding remaining
remaining_lem now s = ground arith

-- The faces that are drawn at the times.
unfoldable pub faces : List ℕ → Timer → List Face
faces [] s = []
faces (t ∷ ts) s = let r = draw_timer_run t s in r.0 ∷ faces ts r.1

-- The time at which the countdown is over.
abbrev pub deadline : Timer → ℕ
deadline s = s.tm_seconds * second + s.tm_start

abbrev pub AllBefore : ℕ → List ℕ → Type 0
AllBefore d [] = Unit
AllBefore d (t ∷ ts) = (t < d) × AllBefore d ts

positive : (x : ℕ) → 0 < x → (x == 0) ≡ false
positive x h = ground arith

nothing_left : (x : ℕ) → x ≤ 0 → (x == 0) ≡ true
nothing_left x h = ground arith

and-false : (b : Bool) → (b && false) ≡ false
and-false true = refl
and-false false = refl

draw_running :
    (now : ℕ) (s : Timer)
    → s.tm_running ≡ true
    → now < deadline s
    → draw_timer_run now s ≡ (left (deadline s - now), s)
unfolding draw_timer_run
draw_running now s r h = rw (remaining_lem, r, positive (deadline s - now) (omega arith)) refl

draw_over :
    (now : ℕ) (s : Timer)
    → s.tm_running ≡ true
    → deadline s ≤ now
    → draw_timer_run now s ≡ (done_face, record s { tm_running = false })
unfolding draw_timer_run
draw_over now s r h = rw (remaining_lem, r, nothing_left (deadline s - now) (omega arith)) refl

draw_stopped :
    (now : ℕ) (s : Timer)
    → s.tm_running ≡ false
    → draw_timer_run now s ≡ (left (s.tm_seconds * second), s)
unfolding draw_timer_run
draw_stopped now s r = rw (remaining_lem, r, and-false) refl

-- Once it is stopped every drawing shows the full time.
faces_stopped :
    (ts : List ℕ) (s : Timer)
    → s.tm_running ≡ false
    → faces ts s ≡ map (λ t. left (s.tm_seconds * second)) ts
unfolding faces
faces_stopped [] s r = refl
faces_stopped (t ∷ ts) s r =
    rw (draw_stopped t s r) (ap (λ fs. left (s.tm_seconds * second) ∷ fs) (faces_stopped ts s r))

-- If the countdown runs, the drawings before its end show the time that remains, the first one
-- after shows DONE!, and those after that one show the full time again.
pub faces-countdown :
    (before : List ℕ) (t : ℕ) (rest : List ℕ) (s : Timer)
    → s.tm_running ≡ true
    → AllBefore (deadline s) before
    → deadline s ≤ t
    → faces (before ++ t ∷ rest) s
      ≡ map (λ b. left (deadline s - b)) before
        ++ done_face ∷ map (λ _. left (s.tm_seconds * second)) rest
unfolding faces
faces-countdown [] t rest s r b h =
    rw (draw_over t s r h)
      (ap (λ fs. done_face ∷ fs) (faces_stopped rest (record s { tm_running = false }) refl))
faces-countdown (b ∷ bs) t rest s r before h =
    rw (draw_running b s r before.0)
      (ap (λ fs. left (deadline s - b) ∷ fs) (faces-countdown bs t rest s r before.1 h))

-- If the countdown's screen is shown and it runs, S stops it, and a second S starts it at the full
-- time: a drawing at the time of the second S shows all the seconds, whatever was left at the first.
pub resume_restarts :
    (d : Digits) (u : Text) (a b : ℕ) (s : Timer)
    → s.mode ≡ timer_run
    → s.tm_running ≡ true
    → 0 < s.tm_seconds
    → (s' : Timer) × (handle_input d a s (keydown k_s u) ≡ done s')
      × Returns
          (λ s''. faces (b ∷ []) s'' ≡ left (s.tm_seconds * second) ∷ [])
          (handle_input d b s' (keydown k_s u))
unfolding handle_input run_key key_index faces
resume_restarts d u a b s m r pos =
    let resumed = record s { tm_running = true; tm_start = b } in
    (
      record s { tm_running = false },
      rw (m, r) refl,
      rw (m) (rw (draw_running b resumed refl (omega arith)) (ap (λ k. left k ∷ []) (omega arith))),
    )

nonempty-snoc : (t : Text) (c : ℕ) → nonempty (t ++ c ∷ []) ≡ true
nonempty-snoc [] c = refl
nonempty-snoc (x ∷ t) c = refl

module _ (d : Digits) (c : ℕ) (no_value : d.value c ≡ none) where
  int_from-none : (n : ℕ) (t : Text) → int_from d n (t ++ c ∷ []) ≡ none
  unfolding int_from
  int_from-none n [] = rw no_value refl
  int_from-none n (x ∷ t) = on_value (d.value x) (λ m. int_from-none m t)
    where
      on_value :
          (o : Option ℕ)
          → ((m : ℕ) → int_from d m (t ++ c ∷ []) ≡ none)
          → (elim o as (λ _. Option ℕ) [
            | none ↦ none
            | some v ↦ int_from d (10 * n + v) (t ++ c ∷ [])
          ])
            ≡ none
      on_value none rest = refl
      on_value (some v) rest = rest (10 * n + v)

  -- If a character is a digit to `isdigit` and none to `int`, the entry takes it, and RETURN after
  -- it raises an exception.
  pub typed_digit_raises :
      (key : Key) (now later : ℕ) (u : Text) (s : Timer)
      → s.mode ≡ timer_input
      → d.is_digit c ≡ true
      → is k_return key ≡ false
      → is k_backspace key ≡ false
      → is k_escape key ≡ false
      → (s' : Timer) × (handle_input d now s (keydown key (c ∷ [])) ≡ done s')
        × (handle_input d later s' (keydown k_return u) ≡ raised s')
  unfolding handle_input input_key start_countdown isdigit key_index
  typed_digit_raises key now later u s m digit r b e = (
    record s { mode = timer_input; tm_input = s.tm_input ++ c ∷ [] },
    rw (m, r, b, e, digit) refl,
    rw (nonempty-snoc s.tm_input c, int_from-none 0 s.tm_input) refl,
  )
