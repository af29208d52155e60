-- ===== src/Apps/Timer/Laws.antt =====
-- The stopwatch of src/apps/timer/timer.py and the numbers that `fmt_time` prints.
use julius_os.Prelude.{
  ℕ, ◌+◌, ◌-◌, ◌*◌, ◌≤◌, ◌<◌, ◌≡◌, refl, ◌∙◌, ap, subst, true, false, List, [], ◌∷◌, arith,
}
use julius_os.Prelude.Int.{pos, ◌+ℤ◌, sub_ℕ}
use julius_os.Prelude.Text.{Text}
use julius_os.Events.{k_s, keydown, key_index}
use julius_os.Outcome.{Outcome, done, Returns, ◌>>=◌}
use julius_os.Apps.Timer.{
  second, Timer, stopwatch, Shown, long, short, fmt_time, stopwatch_key, Digits, handle_input,
}

-- The numbers are in the range of their places, and their sum is the time, rounded down.
abbrev pub Tells : ℕ → Shown → Type 0
Tells t (long h m s) =
    (0 < h)
    × (m < 60)
    × (s < 60)
    × ((3600 * h + 60 * m + s) * second ≤ t)
    × (t < (3600 * h + 60 * m + s + 1) * second)
Tells t (short m s ms) =
    (m < 60)
    × (s < 60)
    × (ms < 100)
    × ((6000 * m + 100 * s + ms) * second ≤ t * 100)
    × (t * 100 < (6000 * m + 100 * s + ms + 1) * second)

-- The numbers of a time that is not below 0 are in range, and tell it to the second, or to the
-- hundredth below one hour.
pub fmt_time-Tells : (t : ℕ) → Tells t (fmt_time t)
unfolding fmt_time
fmt_time-Tells t = ground arith

-- The runs of the stopwatch, each with the times of its start and its end.
abbrev pub presses : List (ℕ × ℕ) → List ℕ
presses [] = []
presses (i ∷ js) = i.0 ∷ i.1 ∷ presses js

abbrev pub total : List (ℕ × ℕ) → ℕ
total [] = 0
total (i ∷ js) = (i.1 - i.0) + total js

abbrev pub IsOrdered : List (ℕ × ℕ) → Type 0
IsOrdered [] = Unit
IsOrdered (i ∷ js) = (i.0 ≤ i.1) × IsOrdered js

-- The key S at each of the times.
unfoldable pub press_all : Digits → Text → List ℕ → Timer → Outcome Timer
press_all d u [] s = done s
press_all d u (t ∷ ts) s = handle_input d t s (keydown k_s u) >>= press_all d u ts

module _ (d : Digits) (u : Text) where
  start_press :
      (a : ℕ) (s : Timer)
      → s.mode ≡ stopwatch
      → s.sw_running ≡ false
      → handle_input d a s (keydown k_s u) ≡ done (record s { sw_start = a; sw_running = true })
  unfolding handle_input stopwatch_key key_index
  start_press a s m r = rw (m, r) refl

  stop_press :
      (b : ℕ) (s : Timer)
      → s.mode ≡ stopwatch
      → s.sw_running ≡ true
      → handle_input d b s (keydown k_s u)
        ≡ done (record s { sw_elapsed = s.sw_elapsed +ℤ sub_ℕ b s.sw_start; sw_running = false })
  unfolding handle_input stopwatch_key key_index
  stop_press b s m r = rw (m, r) refl

  add_interval : (n a b : ℕ) → a ≤ b → (pos n +ℤ sub_ℕ b a) ≡ pos (n + (b - a))
  add_interval n a b h = ground arith

  -- If the stopwatch is shown and stopped at a time n, and S is pressed at the start and the end
  -- of each interval, none of which ends before it starts, then the presses return, the
  -- stopwatch is stopped, and its time is n and the sum of the intervals.
  pub stopwatch-total :
      (js : List (ℕ × ℕ)) (n : ℕ) (s : Timer)
      → s.mode ≡ stopwatch
      → s.sw_running ≡ false
      → s.sw_elapsed ≡ pos n
      → IsOrdered js
      → Returns
          (λ s'. (s'.sw_elapsed ≡ pos (n + total js)) × (s'.sw_running ≡ false))
          (press_all d u (presses js) s)
  unfolding press_all
  stopwatch-total [] n s m r e h = (e ∙ ap pos (omega arith), r)
  stopwatch-total (i ∷ js) n s m r e h =
      let started = record s { sw_start = i.0; sw_running = true } in
      let stopped = record s {
        sw_start = i.0;
        sw_running = false;
        sw_elapsed = s.sw_elapsed +ℤ sub_ℕ i.1 i.0;
      } in
      let rest =
        stopwatch-total js (n + (i.1 - i.0)) stopped m refl
          (ap (λ v. v +ℤ sub_ℕ i.1 i.0) e ∙ add_interval n i.0 i.1 h.0) h.1 in
      rw (start_press i.0 s m r, stop_press i.1 started m refl)
        (subst
          (λ k.
            Returns (λ s'. (s'.sw_elapsed ≡ pos k) × (s'.sw_running ≡ false))
              (press_all d u (presses js) stopped))
          {x = n + (i.1 - i.0) + total js} {y = n + total (i ∷ js)} (omega arith) rest)
