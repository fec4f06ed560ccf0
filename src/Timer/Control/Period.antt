-- ===== src/Timer/Control/Period.antt =====
-- How a periodic timer chooses the time of its next call.
use cyber_rt_standalone_r.Prelude.{ℕ, ◌+◌, ◌^◌, ◌≤◌, ◌<◌, ◌≡◌, ◌⊎◌, arith, add_u64, sub_u64}
use cyber_rt_standalone_r.Timer.Wheel.{TimerTask, timer_max_interval_ms}
use cyber_rt_standalone_r.Timer.Control.{
  round_ms, round_signed_ms, error_after, next_duration, reschedule,
}

next_duration_lem :
    (interval e x : ℕ)
    → interval < 65536
    → x < 2 ^ 64
    → (2 ≤ next_duration interval e (round_signed_ms x))
      × (next_duration interval e (round_signed_ms x) ≤ 65536 + 2 ^ 44)
      × ((next_duration interval e (round_signed_ms x) ≡ 2)
          ⊎ (add_u64 (next_duration interval e (round_signed_ms x) + e) (round_signed_ms x)
              ≡ interval))
next_duration_lem interval e x h k = ground arith

-- After each call a periodic timer with a period below 65536 ms waits at least one tick and never
-- the whole range of `uint64_t`. Unless it waits just one tick, the wait, the time that the call
-- took and the accumulated lateness add up to the period (modulo 2^64, the lateness being signed).
pub reschedule_lem :
    (start_ns end_ns : ℕ) (t : TimerTask)
    → t.interval_ms < timer_max_interval_ms
    → t.accumulated_error_ns < 2 ^ 64
    → let t' = reschedule start_ns end_ns t in
      let e = round_ms (sub_u64 end_ns start_ns) in
      let late = round_signed_ms t'.accumulated_error_ns in
      (2 ≤ t'.next_fire_duration_ms)
      × (t'.next_fire_duration_ms ≤ 65536 + 2 ^ 44)
      × ((t'.next_fire_duration_ms ≡ 2)
          ⊎ (add_u64 (t'.next_fire_duration_ms + e) late ≡ t.interval_ms))
unfolding reschedule
reschedule_lem start_ns end_ns t h k =
    next_duration_lem t.interval_ms (round_ms (sub_u64 end_ns start_ns)) (error_after t start_ns) h
      (ground arith)
