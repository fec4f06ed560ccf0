-- ===== src/Timer/Tests.antt =====
-- Runs of cyber/timer on small inputs, and the theorems at them.
use cyber_rt_standalone_r.Prelude.{
  ℕ, length, replicate, ◌≡◌, refl, true, false, some, none, List, [], ◌∷◌, map, arith,
}
use cyber_rt_standalone_r.Timer.Wheel.{
  TimerTask, Event, ticking, sleeping, steps, adds, drops, init, place, add_task, run,
}
use cyber_rt_standalone_r.Timer.Wheel.Buckets.{count}
use cyber_rt_standalone_r.Timer.Control.{Timer, stop, reschedule}
use cyber_rt_standalone_r.Timer.Control.Lifetime.{stop_silences}
use cyber_rt_standalone_r.Timer.Wheel.Firing.{add_task_fires_once, init-IsAbsent, once, asleep}

abbrev every : ℕ → TimerTask
every ms = record {
  timer_id = 0;
  interval_ms = ms;
  remainder_interval_ms = 0;
  next_fire_duration_ms = ms;
  accumulated_error_ns = 0;
  last_execute_time_ns = 0;
}

abbrev busy : List Event
busy = steps ∷ adds 9 (every 100) ∷ steps ∷ steps ∷ drops 9 ∷ steps ∷ steps ∷ steps ∷ steps ∷ []

add_task_fires_once_example :
    map (count 7) (run sleeping (add_task (place init 7 (every 3)) 7 (every 3)) busy)
    ≡ once 1 (length (run sleeping (add_task (place init 7 (every 3)) 7 (every 3)) busy))
add_task_fires_once_example =
    add_task_fires_once 7 (every 3) sleeping init busy (init-IsAbsent 7) (omega arith)
      (asleep (omega arith)) (omega arith)

abbrev ticker : Timer
ticker = record {
  timer_id = 1;
  timer_opt = record { period = 5; oneshot = true };
  task = none;
  started = false;
}

abbrev running_timer : Timer
running_timer = record ticker { task = some 7; started = true }

stop_silences_example :
    (map (count 7) (run ticking (stop running_timer init).1 busy)
      ≡ replicate (length (run ticking (stop running_timer init).1 busy)) 0)
    × ((stop (stop running_timer init).0 (stop running_timer init).1) ≡ stop running_timer init)
stop_silences_example = stop_silences 7 running_timer ticking init busy refl refl (omega arith)

-- A call that began 1 ms late and took 3 ms: the next one is due 6 ms later.
abbrev late_task : TimerTask
late_task = record (every 10) { last_execute_time_ns = 1000000 }

reschedule_late : (reschedule 12000000 15000000 late_task).next_fire_duration_ms ≡ 6
unfolding reschedule
reschedule_late = refl
