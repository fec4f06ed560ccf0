-- ===== src/Timer/Control/Lifetime.antt =====
-- A timer from its start to its stop.
use cyber_rt_standalone_r.Prelude.{
  ℕ, length, ◌≤◌, ◌≡◌, ◌⊎◌, List, true, some, arith, map, replicate, refl,
}
use cyber_rt_standalone_r.Timer.Wheel.{TimingWheel, Phase, timer_max_interval_ms, Event, run}
use cyber_rt_standalone_r.Timer.Wheel.Buckets.{count}
use cyber_rt_standalone_r.Timer.Wheel.Firing.{Spares}
use cyber_rt_standalone_r.Timer.Wheel.Silence.{release_silences}
use cyber_rt_standalone_r.Timer.Control.{Timer, init_timer_task, start, stop}

-- A period outside that range starts nothing: the wheel stays as it is and no task is made.
pub start_refuses :
    (p : ℕ) (m : Timer) (w : TimingWheel)
    → (m.timer_opt.period ≡ 0) ⊎ (timer_max_interval_ms ≤ m.timer_opt.period)
    → ((start true p m w).1 ≡ w) × ((start true p m w).0.task ≡ m.task)
unfolding start init_timer_task
start_refuses p m w h = ground arith

-- After a stop of a started timer, whose task is `p`, no tick fires the task, although the wheel may
-- still hold it, as long as nobody adds it again: the case of a callback of the timer that is running
-- during the stop, and adds its task after it, is excluded. A second stop changes nothing.
pub stop_silences :
    (p : ℕ) (m : Timer) (c : Phase) (w : TimingWheel) (es : List Event)
    → m.started ≡ true
    → m.task ≡ some p
    → Spares p es
    → (map (count p) (run c (stop m w).1 es) ≡ replicate (length (run c (stop m w).1 es)) 0)
      × ((stop (stop m w).0 (stop m w).1) ≡ stop m w)
unfolding stop
stop_silences p m c w es on has s = rw (on, has) (release_silences c w p es s, refl)
