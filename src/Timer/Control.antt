-- ===== src/Timer/Control.antt =====
-- cyber/timer/timer.cc: starting and stopping a timer, and what the callback of a periodic timer
-- does to its task. A 64-bit signed value is kept as its bit pattern. `std::llround` of a `double`
-- is exact below 2^53 nanoseconds, and is written as rounding half away from zero.
pub mod Period
pub mod Lifetime
use cyber_rt_standalone_r.Prelude.{
  ℕ, ◌+◌, ◌-◌, ◌*◌, ◌/◌, ◌%◌, ◌^◌, Bool, true, false, Option, some, none, ◌==◌, ltb, leb,
  if◌then◌else◌, add_u64, sub_u64,
}
use cyber_rt_standalone_r.Timer.Wheel.{
  TimerTask, TimingWheel, timer_resolution_ms, timer_max_interval_ms, place, release, add_task,
}

pub record TimerOption : Type 0 where
  pub period : ℕ
  pub oneshot : Bool

-- `task_` is a pointer into the wheel's heap.
pub record Timer : Type 0 where
  pub timer_id : ℕ
  pub timer_opt : TimerOption
  pub task : Option ℕ
  pub started : Bool

abbrev pub new_task : Timer → TimerTask
new_task m = record {
  timer_id = m.timer_id;
  interval_ms = m.timer_opt.period;
  remainder_interval_ms = 0;
  next_fire_duration_ms = m.timer_opt.period;
  accumulated_error_ns = 0;
  last_execute_time_ns = 0;
}

-- `InitTimerTask`: the task that is made, or `none` where it returns false. The callbacks that it
-- builds are `reschedule` below, or none for a oneshot timer.
pub init_timer_task : Timer → Option TimerTask
init_timer_task m =
    if m.timer_opt.period == 0
    then none
    else if leb timer_max_interval_ms m.timer_opt.period
    then none
    else some (new_task m)

-- What the allocation at the pointer `p` and the rest of `Start` do, after `started_.exchange`.
abbrev pub launch : Option TimerTask → ℕ → Timer → TimingWheel → Timer × TimingWheel
launch none p m w = (record m { started = true }, w)
launch (some t) p m w = (record m { started = true; task = some p }, add_task (place w p t) p t)

pub start : Bool → ℕ → Timer → TimingWheel → Timer × TimingWheel
unfolding init_timer_task
start false p m w = (m, w)
start true p m w = if m.started then (m, w) else launch (init_timer_task m) p m w

abbrev pub drop_task : Bool → Option ℕ → Timer → TimingWheel → Timer × TimingWheel
drop_task true (some p) m w = (record m { started = false; task = none }, release w p)
drop_task true none m w = (record m { started = false }, w)
drop_task false o m w = (record m { started = false }, w)

-- The timer holds the last shared pointer to its task.
pub stop : Timer → TimingWheel → Timer × TimingWheel
stop m w = drop_task m.started m.task m w

-- `std::llround(static_cast<double>(ns) / 1e6)`, for an unsigned and for a signed count.
abbrev pub round_ms : ℕ → ℕ
round_ms ns = (ns + 500000) / 1000000

abbrev pub is_negative : ℕ → Bool
is_negative x = leb (2 ^ 63) x

abbrev pub round_signed_ms : ℕ → ℕ
round_signed_ms x = if is_negative x then sub_u64 0 (round_ms (2 ^ 64 - x)) else round_ms x

-- Comparison of `int64_t` values.
abbrev pub leb_i64 : ℕ → ℕ → Bool
leb_i64 x y = leb ((x + 2 ^ 63) % 2 ^ 64) ((y + 2 ^ 63) % 2 ^ 64)

abbrev pub error_after : TimerTask → ℕ → ℕ
error_after t start_ns =
    if t.last_execute_time_ns == 0
    then t.accumulated_error_ns
    else add_u64 t.accumulated_error_ns
        (sub_u64 (sub_u64 start_ns t.last_execute_time_ns) (t.interval_ms * 1000000 % 2 ^ 64))

abbrev pub next_duration : ℕ → ℕ → ℕ → ℕ
next_duration interval execute_time_ms accumulated_error_ms =
    if leb interval execute_time_ms
    then timer_resolution_ms
    else if leb_i64 accumulated_error_ms
        (sub_u64 (sub_u64 interval execute_time_ms) timer_resolution_ms)
    then sub_u64 (sub_u64 interval execute_time_ms) accumulated_error_ms
    else timer_resolution_ms

-- The callback of a periodic timer around the user's callback, which ran from `start_ns` to
-- `end_ns`: the task that is then added to the wheel.
unfoldable pub reschedule : ℕ → ℕ → TimerTask → TimerTask
reschedule start_ns end_ns t =
    let error = error_after t start_ns in
    record t {
      accumulated_error_ns = error;
      last_execute_time_ns = start_ns;
      next_fire_duration_ms =
          next_duration t.interval_ms (round_ms (sub_u64 end_ns start_ns)) (round_signed_ms error);
    }

-- The whole callback, on a task that is still alive.
pub fire_again : ℕ → ℕ → ℕ → TimerTask → TimingWheel → TimingWheel
unfolding reschedule
fire_again start_ns end_ns p t w =
    let t' = reschedule start_ns end_ns t in add_task (place w p t') p t'
