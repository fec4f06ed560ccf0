-- ===== src/Timer/Wheel/Firing.antt =====
-- When a task fires, whatever else happens to the wheel meanwhile.
use cyber_rt_standalone_r.Prelude.{
  ℕ, zero, suc, ◌-◌, subst, length, ◌<◌, ◌≡◌, ◌≢◌, inl, inr, refl, ap, List, [], ◌∷◌, Option, some,
  none, arith, replicate, map, get_or-replicate, length-replicate,
}
use cyber_rt_standalone_r.Timer.Wheel.{
  TimerTask, TimerBucket, TimingWheel, Phase, ticking, sleeping, turning, cascading, tick_step,
  turn_work, turn_assistant, cascade, add_task, place, release, ticks_of, start,
  timer_max_interval_ms, Event, steps, adds, drops, run, init,
}
use cyber_rt_standalone_r.Timer.Wheel.Buckets.{count}
use cyber_rt_standalone_r.Timer.Wheel.Waiting.{Pending, after_round, due_now}
use cyber_rt_standalone_r.Timer.Wheel.Phases.{
  finish, MidPending, Mid-tick_step, Mid-turn_work, Mid-turn_assistant, Mid-cascade, Mid-adds,
  Mid-drops, Mid-sleeping,
}
use cyber_rt_standalone_r.Timer.Wheel.Rounds.{IsAbsent}
use cyber_rt_standalone_r.Timer.Wheel.Adding.{add_started-Pending}
use cyber_rt_standalone_r.Timer.Wheel.Others.{add_task-cases, Pending-Shape}

IsAbsent-place : (p : ℕ) (t : TimerTask) (w : TimingWheel) → IsAbsent p w → IsAbsent p (place w p t)
IsAbsent-place p t w v = record {
  shape = record {
    work_sized = v.shape.work_sized;
    assistant_sized = v.shape.assistant_sized;
    work_index = v.shape.work_index;
    assistant_index = v.shape.assistant_index;
  };
  work_counts = v.work_counts;
  assistant_counts = v.assistant_counts;
}

IsAbsent-start : (p : ℕ) (w : TimingWheel) → IsAbsent p w → IsAbsent p (start w)
unfolding start
IsAbsent-start p w v = record {
  shape = record {
    work_sized = v.shape.work_sized;
    assistant_sized = v.shape.assistant_sized;
    work_index = v.shape.work_index;
    assistant_index = v.shape.assistant_index;
  };
  work_counts = v.work_counts;
  assistant_counts = v.assistant_counts;
}

-- The task itself, once it is added.
add_task-Pending :
    (p : ℕ) (t : TimerTask) (w : TimingWheel)
    → IsAbsent p w
    → t.next_fire_duration_ms < timer_max_interval_ms
    → Pending p (add_task (place w p t) p t) (some (ticks_of t.next_fire_duration_ms))
unfolding start
add_task-Pending p t w v h =
    let placed : IsAbsent p (place w p t) = IsAbsent-place p t w v in
    elim (add_task-cases (place w p t) p t) [
      | inl e ↦ rw e (add_started-Pending p t _ placed (ground arith) h)
      | inr e ↦ rw e (add_started-Pending p t _ (IsAbsent-start p _ placed) (ground arith) h)
    ]

-- The events that do not touch `p`.
abbrev pub Spares : ℕ → List Event → Type 0
Spares p [] = Unit {0}
Spares p (steps ∷ es) = Spares p es
Spares p (adds q t ∷ es) = (q ≢ p) × Spares p es
Spares p (drops q ∷ es) = (q ≢ p) × Spares p es

-- How often `p` is fired in each of `k` ticks, if it is due once, after `n` ticks.
abbrev pub once : ℕ → ℕ → List ℕ
once zero zero = []
once zero (suc k) = 1 ∷ replicate k 0
once (suc n) zero = []
once (suc n) (suc k) = 0 ∷ once n k

abbrev expected : Option ℕ → ℕ → List ℕ
expected none k = replicate k 0
expected (some n) k = once n k

expected-zero : (o : Option ℕ) → [] ≡ expected o 0
expected-zero none = refl
expected-zero (some zero) = refl
expected-zero (some (suc n)) = refl

expected-suc : (o : Option ℕ) (k : ℕ) → due_now o ∷ expected (after_round o) k ≡ expected o (suc k)
expected-suc none k = refl
expected-suc (some zero) k = refl
expected-suc (some (suc n)) k = refl

run-MidPending :
    (p : ℕ) (c : Phase) (w : TimingWheel) (o : Option ℕ) (es : List Event)
    → Spares p es
    → MidPending p c w o
    → map (count p) (run c w es) ≡ expected o (length (run c w es))
unfolding run
run-MidPending p c w o [] s v = expected-zero o
run-MidPending p ticking w o (steps ∷ es) s v =
    let (now, later) = Mid-tick_step p w o v in
    rw (now, run-MidPending p sleeping (tick_step w).1 (after_round o) es s later)
      (expected-suc o (length (run sleeping (tick_step w).1 es)))
run-MidPending p sleeping w o (steps ∷ es) s v =
    run-MidPending p (turn_work w).0 (turn_work w).1 o es s (Mid-turn_work p w o v)
run-MidPending p turning w o (steps ∷ es) s v =
    run-MidPending p cascading (turn_assistant w) o es s (Mid-turn_assistant p w o v)
run-MidPending p cascading w o (steps ∷ es) s v =
    run-MidPending p ticking (cascade w w.current_assistant_wheel_index) o es s
      (Mid-cascade p w o v)
run-MidPending p c w o (adds q t ∷ es) s v =
    run-MidPending p c (add_task (place w q t) q t) o es s.1 (Mid-adds p q t c w o s.0 v)
run-MidPending p c w o (drops q ∷ es) s v =
    run-MidPending p c (release w q) o es s.1 (Mid-drops p q c w o s.0 v)

-- Where a task may be added: between two rounds, or with a duration during the sleep.
pub data IsTimely (duration : ℕ) : Phase → Type 0 where
  between : IsTimely duration ticking
  asleep : 0 < duration → IsTimely duration sleeping

-- The ticks before the one that fires a task.
abbrev pub ticks_left : Phase → ℕ → ℕ
ticks_left sleeping duration = ticks_of duration - 1
ticks_left c duration = ticks_of duration

add_task-MidPending :
    (p : ℕ) (t : TimerTask) (c : Phase) (w : TimingWheel)
    → IsAbsent p w
    → t.next_fire_duration_ms < timer_max_interval_ms
    → IsTimely t.next_fire_duration_ms c
    → MidPending p c (add_task (place w p t) p t) (some (ticks_left c t.next_fire_duration_ms))
unfolding finish
add_task-MidPending p t c w v h between =
    let added = add_task-Pending p t w v h in (Pending-Shape added, added)
add_task-MidPending p t c w v h (asleep pos) =
    let k : ℕ = ticks_of t.next_fire_duration_ms - 1 in
    let e : ticks_of t.next_fire_duration_ms ≡ suc k = omega (arith, pos) in
    Mid-sleeping p k _
      (subst (λ n. Pending p (add_task (place w p t) p t) (some n)) e (add_task-Pending p t w v h))

-- A task that stands in no bucket, is added with a duration of less than TIMER_MAX_INTERVAL_MS between two
-- rounds, or with a duration above 0 during the sleep, and is then left alone is fired exactly once: by the
-- tick before which half its duration, rounded up, has passed in ticks, that of the sleep included, wherever
-- in the rounds other tasks are added and dropped.
pub add_task_fires_once :
    (p : ℕ) (t : TimerTask) (c : Phase) (w : TimingWheel) (es : List Event)
    → IsAbsent p w
    → t.next_fire_duration_ms < timer_max_interval_ms
    → IsTimely t.next_fire_duration_ms c
    → Spares p es
    → map (count p) (run c (add_task (place w p t) p t) es)
      ≡ once (ticks_left c t.next_fire_duration_ms) (length (run c (add_task (place w p t) p t) es))
add_task_fires_once p t c w es v h k s =
    run-MidPending p c _ _ es s (add_task-MidPending p t c w v h k)

-- The wheel that `TimingWheel()` makes holds no task.
pub init-IsAbsent : (p : ℕ) → IsAbsent p init
unfolding init
init-IsAbsent p = record {
  shape = record {
    work_sized = length-replicate {A = TimerBucket} 512 [];
    assistant_sized = length-replicate {A = TimerBucket} 64 [];
    work_index = omega arith;
    assistant_index = omega arith;
  };
  work_counts = λ i. ap (count p) (get_or-replicate 512 i []);
  assistant_counts = λ j. ap (count p) (get_or-replicate 64 j []);
}
