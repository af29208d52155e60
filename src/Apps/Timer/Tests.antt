-- ===== src/Apps/Timer/Tests.antt =====
-- A stopwatch that ran twice, and a countdown of three seconds.
use julius_os.Prelude.{
  ◌*◌, ◌≡◌, refl, true, false, none, some, [], ◌∷◌, ◌-◌, ◌+◌, arith, ltb, ◌&&◌, if◌then◌else◌,
}
use julius_os.Prelude.Int.{pos}
use julius_os.Prelude.Text.{codes}
use julius_os.Outcome.{Returns}
use julius_os.Apps.Timer.{
  second, Timer, init, stopwatch, timer_run, timer_input, short, fmt_time, done_face, left, Digits,
}
use julius_os.Apps.Timer.Laws.{Tells, fmt_time-Tells, presses, press_all, stopwatch-total}
use julius_os.Apps.Timer.Countdown.{faces, faces-countdown}

-- The digits of ASCII, and ², which is a digit without a value for `int`.
abbrev ascii : Digits
ascii = record {
  is_digit = λ c. if ltb c 48 then false else if ltb c 58 then true else ltb 177 c && ltb c 179;
  value = λ c. if ltb c 48 then none else if ltb c 58 then some (c - 48) else none;
}

fmt_time-Tells_example : Tells (65 * second) (fmt_time (65 * second))
fmt_time-Tells_example = fmt_time-Tells (65 * second)

minute_and_more : fmt_time (65 * second) ≡ short 1 5 0
unfolding fmt_time
minute_and_more = refl

abbrev watch : Timer
watch = record init { mode = stopwatch }

stopwatch-total_example :
    Returns
      (λ s'. (s'.sw_elapsed ≡ pos 12) × (s'.sw_running ≡ false))
      (press_all ascii [] (presses ((10, 15) ∷ (20, 27) ∷ [])) watch)
stopwatch-total_example =
    stopwatch-total ascii [] ((10, 15) ∷ (20, 27) ∷ []) 0 watch refl refl refl
      (omega arith, (omega arith, tt))

abbrev three : Timer
three = record init { mode = timer_run; tm_seconds = 3; tm_start = 100; tm_running = true }

faces-countdown_example :
    faces (second ∷ 4 * second ∷ 5 * second ∷ []) three
    ≡ left (2 * second + 100) ∷ done_face ∷ left (3 * second) ∷ []
faces-countdown_example =
    faces-countdown (second ∷ []) (4 * second) (5 * second ∷ []) three refl (omega arith, tt)
      (omega arith)

abbrev entry : Timer
entry = record init { mode = timer_input; tm_input = codes "5" }
