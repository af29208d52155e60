-- ===== src/Apps/Timer.antt =====
-- src/apps/timer/timer.py: the stopwatch and the countdown. A time is a number of units of
-- 2^-22 seconds: `time.time()` is a multiple of it until 2038, so that the sums and differences of
-- the code, and its divisions in `fmt_time`, are exact.
mod Laws
mod Countdown
mod Tests
use julius_os.Prelude.{
  ℕ, ◌+◌, ◌-◌, ◌*◌, ◌/◌, ◌%◌, ◌^◌, Bool, true, false, ◌&&◌, Option, none, some, List, [], ◌∷◌, ◌++◌,
  nonempty, drop_last, ltb, ◌==◌, if◌then◌else◌,
}
use julius_os.Prelude.Int.{ℤ, pos, ◌+ℤ◌, ◌-ℤ◌, sub_ℕ, max_ℤ, pos_part}
use julius_os.Prelude.Text.{Text}
use julius_os.Events.{
  Key, k_return, k_backspace, k_escape, k_l, k_r, k_s, k_1, k_2, is, Event, keydown,
}
use julius_os.Outcome.{Outcome, done, raised}

-- One second.
abbrev pub second : ℕ
second = 4194304

pub data Mode : Type 0 where
  menu stopwatch timer_input timer_run : Mode

-- The times `sw_elapsed` and `sw_laps` are below 0 where the clock was set back.
pub record Timer : Type 0 where
  pub mode : Mode
  pub sw_running : Bool
  pub sw_start : ℕ
  pub sw_elapsed : ℤ
  pub sw_laps : List ℤ
  pub tm_input : Text
  pub tm_seconds : ℕ
  pub tm_start : ℕ
  pub tm_running : Bool

abbrev pub init : Timer
init = record {
  mode = menu;
  sw_running = false;
  sw_start = 0;
  sw_elapsed = pos 0;
  sw_laps = [];
  tm_input = [];
  tm_seconds = 0;
  tm_start = 0;
  tm_running = false;
}

-- What `fmt_time` prints, each number with two digits: `h:m:s`, or `m:s.hundredths`.
pub data Shown : Type 0 where
  long : ℕ → ℕ → ℕ → Shown
  short : ℕ → ℕ → ℕ → Shown

-- A time that is not below 0.
unfoldable pub fmt_time : ℕ → Shown
fmt_time t =
    let h = t / (3600 * second) in
    let m = t % (3600 * second) / (60 * second) in
    let s = t % (60 * second) / second in
    let ms = t % second * 100 / second in if ltb 0 h then long h m s else short m s ms

-- The time that `draw_stopwatch` prints.
unfoldable pub stopwatch_time : ℕ → Timer → ℤ
stopwatch_time now s = if s.sw_running then s.sw_elapsed +ℤ sub_ℕ now s.sw_start else s.sw_elapsed

-- What `draw_timer_run` prints: DONE!, or the time that remains.
pub data Face : Type 0 where
  done_face : Face
  left : ℕ → Face

-- `max(0, self.tm_seconds - elapsed)`
unfoldable pub remaining : ℕ → Timer → ℕ
remaining now s =
    let elapsed = if s.tm_running then sub_ℕ now s.tm_start else pos 0 in
    pos_part (max_ℤ (pos 0) (pos (s.tm_seconds * second) -ℤ elapsed))

unfoldable pub draw_timer_run : ℕ → Timer → Face × Timer
unfolding remaining
draw_timer_run now s =
    if remaining now s == 0 && s.tm_running
    then (done_face, record s { tm_running = false })
    else (left (remaining now s), s)

unfoldable pub menu_key : Key → Timer → Timer
menu_key key s =
    if is k_1 key
    then record s { mode = stopwatch }
    else if is k_2 key
    then record s { mode = timer_input; tm_input = [] }
    else s

unfoldable pub stopwatch_key : Key → ℕ → Timer → Timer
stopwatch_key key now s =
    if is k_s key
    then (if s.sw_running
        then record s { sw_elapsed = s.sw_elapsed +ℤ sub_ℕ now s.sw_start; sw_running = false }
        else record s { sw_start = now; sw_running = true })
    else if is k_l key
    then (if s.sw_running
        then record s { sw_laps = s.sw_laps ++ (s.sw_elapsed +ℤ sub_ℕ now s.sw_start) ∷ [] }
        else s)
    else if is k_r key
    then record s { sw_running = false; sw_elapsed = pos 0; sw_laps = [] }
    else if is k_escape key
    then record s { mode = menu }
    else s

-- What Python's character tables say: whether a character is a digit, and the value of those that
-- `int` takes.
pub record Digits : Type 0 where
  pub is_digit : ℕ → Bool
  pub value : ℕ → Option ℕ

-- `text.isdigit()`
unfoldable pub isdigit : Digits → Text → Bool
isdigit d [] = false
isdigit d (c ∷ []) = d.is_digit c
isdigit d (c ∷ x ∷ cs) = d.is_digit c && isdigit d (x ∷ cs)

-- `int` of a text that only the branch for digits has written; n is the value so far.
unfoldable pub int_from : Digits → ℕ → Text → Option ℕ
int_from d n [] = some n
int_from d n (c ∷ cs) = elim (d.value c) [ none ↦ none | some v ↦ int_from d (10 * n + v) cs ]

-- `none` is ValueError.
unfoldable pub start_countdown : ℕ → Timer → Option ℕ → Outcome Timer
start_countdown now s none = raised s
start_countdown now s (some n) =
    done (record s { tm_seconds = n; tm_start = now; tm_running = true; mode = timer_run })

unfoldable pub input_key : Digits → Key → Text → ℕ → Timer → Outcome Timer
unfolding start_countdown int_from isdigit
input_key d key unicode now s =
    if is k_return key && nonempty s.tm_input
    then start_countdown now s (int_from d 0 s.tm_input)
    else if is k_backspace key
    then done (record s { tm_input = drop_last s.tm_input })
    else if is k_escape key
    then done (record s { mode = menu })
    else if isdigit d unicode
    then done (record s { tm_input = s.tm_input ++ unicode })
    else done s

unfoldable pub run_key : Key → ℕ → Timer → Timer
run_key key now s =
    if is k_s key
    then (if s.tm_running
        then record s { tm_running = false }
        else record s { tm_start = now; tm_running = true })
    else if is k_r key
    then record s { tm_running = false; tm_start = 0; mode = timer_input; tm_input = [] }
    else if is k_escape key
    then record s { tm_running = false; mode = menu }
    else s

-- `now` is what `time.time()` gives during the call.
unfoldable pub handle_input : Digits → ℕ → Timer → Event → Outcome Timer
unfolding menu_key stopwatch_key input_key run_key
handle_input d now s (keydown key unicode) = elim s.mode [
  | menu ↦ done (menu_key key s)
  | stopwatch ↦ done (stopwatch_key key now s)
  | timer_input ↦ input_key d key unicode now s
  | timer_run ↦ done (run_key key now s)
]
handle_input d now s _ = done s
