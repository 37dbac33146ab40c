-- ===== src/Analytics/Clock.antt =====
-- The runs of the rollup loop of app/services/rollup_scheduler.py, and its one task.
use leadpulse.Prelude.{ℕ, zero, suc, ◌+◌, ◌<◌, false, some, ◌≡◌, arith}
use leadpulse.Analytics.{Moment, day_length}
use leadpulse.Analytics.Periods.{IsTimed}
use leadpulse.Analytics.Scheduler.{
  advance, seconds_until_next_utc_midnight, rollup_loop, Tasks, finish,
  start_daily_rollup_scheduler, stop_daily_rollup_scheduler, TaskStep, start, stop, ends, Reaches,
  here, onward,
}

advance-day : (m : Moment) (us : ℕ) → m.time + us < day_length → (advance m us).day ≡ m.day
unfolding advance
advance-day m us h = omega (arith, h)

advance-time : (m : Moment) (us : ℕ) → m.time + us < day_length → (advance m us).time ≡ m.time + us
unfolding advance
advance-time m us h = omega (arith, h)

sleep-day :
    (m : Moment) (late : ℕ)
    → IsTimed m
    → late < day_length
    → ((advance m (seconds_until_next_utc_midnight m + late)).day ≡ m.day + 1)
      × ((advance m (seconds_until_next_utc_midnight m + late)).time ≡ late)
unfolding advance seconds_until_next_utc_midnight
sleep-day m late h l = (omega (arith, h, l), omega (arith, h, l))

-- What is left of the day when the run number `i` starts: its time of the day and its length.
abbrev pub FitsDay : (ℕ → ℕ) → (ℕ → ℕ) → Moment → Type 0
FitsDay busy late now =
    (now.time + busy 0 < day_length) × ((i : ℕ) → late i + busy (suc i) < day_length)

rollup_loop-start :
    (busy late : ℕ → ℕ) (now : Moment)
    → FitsDay busy late now
    → (i : ℕ)
    → ((rollup_loop busy late now i).day ≡ now.day + i)
      × ((rollup_loop busy late now i).time + busy i < day_length)
unfolding rollup_loop
rollup_loop-start busy late now fits zero = (omega arith, fits.0)
rollup_loop-start busy late now fits (suc i) =
    let m = rollup_loop busy late now i in
    let (day, short) = rollup_loop-start busy late now fits i in
    let same = advance-day m (busy i) short in
    let timed = advance-time m (busy i) short in
    let l : late i < day_length = omega (arith, fits.1 i) in
    let (next, woken) = sleep-day (advance m (busy i)) (late i) (omega (arith, timed, short)) l in
    (omega (arith, next, same, day), omega (arith, woken, fits.1 i))

-- No day is left out: the run number `i` starts on the day `i` days after that of the first run, when
-- the first run ends on the day on which it starts, and each later one ends on the day of the midnight before it.
pub rollup_loop-day :
    (busy late : ℕ → ℕ) (now : Moment)
    → FitsDay busy late now
    → (i : ℕ) → (rollup_loop busy late now i).day ≡ now.day + i
rollup_loop-day busy late now fits i = (rollup_loop-start busy late now fits i).0

-- A task that is not done is the one that the module holds.
abbrev pub IsAlone : Tasks → Type 0
IsAlone t = (i : ℕ) → i < t.created → t.is_done i ≡ false → t.rollup_task ≡ some i

start-IsAlone : (t : Tasks) → IsAlone t → IsAlone (start_daily_rollup_scheduler t).1
unfolding start_daily_rollup_scheduler
start-IsAlone t h i = ground (arith, h i)

stop-IsAlone : (t : Tasks) → IsAlone t → IsAlone (stop_daily_rollup_scheduler t)
unfolding stop_daily_rollup_scheduler
stop-IsAlone t h i = ground (arith, h i)

finish-IsAlone : (t : Tasks) (i : ℕ) → IsAlone t → IsAlone (finish i t)
finish-IsAlone t i h j = ground (arith, h j)

TaskStep-IsAlone : {t u : Tasks} → TaskStep t u → IsAlone t → IsAlone u
TaskStep-IsAlone (start t) h = start-IsAlone t h
TaskStep-IsAlone (stop t) h = stop-IsAlone t h
TaskStep-IsAlone (ends t i) h = finish-IsAlone t i h

-- There is never a second task: whatever starts, stops and errors follow a state with no task,
-- a task that is not done is the one that the module holds.
pub Reaches-IsAlone : {t u : Tasks} → t.created ≡ 0 → Reaches t u → IsAlone u
Reaches-IsAlone none_yet here = λ i below. ground arith
Reaches-IsAlone none_yet (onward r st) = TaskStep-IsAlone st (Reaches-IsAlone none_yet r)
