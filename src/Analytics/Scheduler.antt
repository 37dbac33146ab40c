-- ===== src/Analytics/Scheduler.antt =====
-- The scheduler of the daily rollup: app/services/rollup_scheduler.py. Times are in microseconds.
use leadpulse.Prelude.{
  ℕ, zero, suc, ◌+◌, ◌-◌, ◌*◌, ◌/◌, ◌%◌, Bool, true, false, Option, none, some, if◌then◌else◌, ◌==◌,
}
use leadpulse.Analytics.{Moment, day_length}

-- `now + timedelta(microseconds=us)`
unfoldable pub advance : Moment → ℕ → Moment
advance m us =
    let t = m.day * day_length + m.time + us in
    record { day = t / day_length; time = t % day_length }

abbrev pub next_midnight : Moment → Moment
next_midnight now = record { day = now.day + 1; time = 0 }

-- `seconds_until_next_utc_midnight`
unfoldable pub seconds_until_next_utc_midnight : Moment → ℕ
seconds_until_next_utc_midnight now =
    let next = next_midnight now in
    (next.day * day_length + next.time) - (now.day * day_length + now.time)

-- `_rollup_loop`: the time at which it starts its run number `i`, where the run number `j` takes
-- `busy j` and the sleep after it lasts `late j` longer than it was asked to.
unfoldable pub rollup_loop : (ℕ → ℕ) → (ℕ → ℕ) → Moment → ℕ → Moment
rollup_loop busy late now zero = now
rollup_loop busy late now (suc i) =
    let ended = advance (rollup_loop busy late now i) (busy i) in
    advance ended (seconds_until_next_utc_midnight ended + late i)

-- The tasks of the event loop, numbered as they are created, and the one that the module holds.
pub record Tasks : Type 0 where
  pub rollup_task : Option ℕ
  pub created : ℕ
  pub is_done : ℕ → Bool

abbrev pub create_task : Tasks → ℕ × Tasks
create_task t = (
  t.created,
  record {
    rollup_task = some t.created;
    created = t.created + 1;
    is_done = λ i. if i == t.created then false else t.is_done i;
  },
)

abbrev pub finish : ℕ → Tasks → Tasks
finish i t = record t { is_done = λ j. if j == i then true else t.is_done j }

abbrev pub start_with : Option ℕ → Tasks → ℕ × Tasks
start_with none t = create_task t
start_with (some i) t = if t.is_done i then create_task t else (i, t)

-- `start_daily_rollup_scheduler`
unfoldable pub start_daily_rollup_scheduler : Tasks → ℕ × Tasks
start_daily_rollup_scheduler t = start_with t.rollup_task t

abbrev pub stop_with : Option ℕ → Tasks → Tasks
stop_with none t = t
stop_with (some i) t = record (finish i t) { rollup_task = none }

-- `stop_daily_rollup_scheduler`, with the end of the cancelled task.
unfoldable pub stop_daily_rollup_scheduler : Tasks → Tasks
stop_daily_rollup_scheduler t = stop_with t.rollup_task t

-- The module starts or stops the scheduler, or a task ends by an error.
pub data TaskStep : Tasks → Tasks → Type 0 where
  start : (t : Tasks) → TaskStep t (start_daily_rollup_scheduler t).1
  stop : (t : Tasks) → TaskStep t (stop_daily_rollup_scheduler t)
  ends : (t : Tasks) (i : ℕ) → TaskStep t (finish i t)

pub data Reaches (t : Tasks) : Tasks → Type 0 where
  here : Reaches t t
  onward : {u v : Tasks} → Reaches t u → TaskStep u v → Reaches t v
