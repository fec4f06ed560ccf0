-- ===== src/Timer/Wheel/Adding.antt =====
-- `AddTask` puts a task where it waits for exactly its ticks.
use cyber_rt_standalone_r.Prelude.{
  ℕ, ◌+◌, ◌/◌, ◌%◌, ◌≤◌, ◌<◌, ◌≡◌, inl, inr, ap, ◌∙◌, Option, some, arith, ◌==◌, ltb, leb, ◌&&◌,
  add_u64, length-set, Bool-cases,
}
use cyber_rt_standalone_r.Timer.Wheel.{
  TimerTask, TimingWheel, is_alive, add_far, add_started, ticks_of, push_back,
  timer_max_interval_ms, update,
}
use cyber_rt_standalone_r.Timer.Wheel.Buckets.{count-push_back}
use cyber_rt_standalone_r.Timer.Wheel.Waiting.{Pending, near, far}
use cyber_rt_standalone_r.Timer.Wheel.Rounds.{IsAbsent, IsNear, IsFar}

-- A task that is put into a work bucket.
into_work :
    (p n i : ℕ) (w : TimingWheel) (heap : ℕ → Option TimerTask) (t : TimerTask)
    → IsAbsent p w
    → heap p ≡ some t
    → n < 512
    → i ≡ (w.current_work_wheel_index + n) % 512
    → IsNear p n (record w { tasks = heap; work_wheel = push_back w.work_wheel i p })
into_work p n i w heap t v e h at = record {
  shape = record {
    work_sized = length-set w.work_wheel i _ ∙ v.shape.work_sized;
    assistant_sized = v.shape.assistant_sized;
    work_index = v.shape.work_index;
    assistant_index = v.shape.assistant_index;
  };
  near = h;
  living = rw (e, is_alive);
  work_counts = λ j.
      ground (arith, v.work_counts j, v.shape.work_sized, count-push_back p p w.work_wheel i j);
  assistant_counts = v.assistant_counts;
}

-- A task that is put into an assistant bucket.
into_assistant :
    (p m i : ℕ) (w : TimingWheel) (heap : ℕ → Option TimerTask) (t : TimerTask)
    → IsAbsent p w
    → heap p ≡ some t
    → 0 < m
    → m ≤ 64
    → t.remainder_interval_ms < 512
    → i ≡ (w.current_assistant_wheel_index + m) % 64
    → IsFar p m t (record w { tasks = heap; assistant_wheel = push_back w.assistant_wheel i p })
into_assistant p m i w heap t v e pos h r at = record {
  shape = record {
    work_sized = v.shape.work_sized;
    assistant_sized = length-set w.assistant_wheel i _ ∙ v.shape.assistant_sized;
    work_index = v.shape.work_index;
    assistant_index = v.shape.assistant_index;
  };
  ahead = pos;
  reach = h;
  living = e;
  remainder = r;
  work_counts = v.work_counts;
  assistant_counts = λ j. ground (
    arith,
    v.assistant_counts j,
    v.shape.assistant_sized,
    count-push_back p p w.assistant_wheel i j,
  );
}

-- An index past the work wheel: the assistant wheel, or the part of the work wheel that is already
-- behind the current bucket.
add_far-Pending :
    (p k x : ℕ) (t : TimerTask) (w : TimingWheel)
    → IsAbsent p w
    → k ≤ 32768
    → 512 ≤ x
    → x ≡ w.current_work_wheel_index + k
    → Pending p (add_far w p t x) (some k)
unfolding add_far
add_far-Pending p k x t w v small far_off e =
    elim (Bool-cases (x / 512 == 1 && ltb (x % 512) w.current_work_wheel_index)) [
      | inl behind ↦ rw behind (
          near (
            into_work p k (x % 512) w heap moved v here (ground (arith, v.shape.work_index))
              (ap (λ (y : ℕ). y % 512) e)))
      | inr ahead ↦ rw ahead (
          far (x / 512) moved
            (into_assistant p (x / 512) _ w heap moved v here (omega arith)
              (omega (arith, v.shape.work_index)) (omega arith)
              (omega (arith, v.shape.assistant_index, v.shape.work_index)))
            (omega arith))
    ]
  where
    moved : TimerTask
    moved = record t { remainder_interval_ms = x % 512 }

    heap : ℕ → Option TimerTask
    heap = update w.tasks p moved

    here : heap p ≡ some moved
    here = ground arith

-- `AddTask` puts a task where it is reached after the ticks of its duration.
pub add_started-Pending :
    (p : ℕ) (t : TimerTask) (w : TimingWheel)
    → IsAbsent p w
    → w.tasks p ≡ some t
    → t.next_fire_duration_ms < timer_max_interval_ms
    → Pending p (add_started w p t) (some (ticks_of t.next_fire_duration_ms))
unfolding add_started
add_started-Pending p t w v e h = elim (Bool-cases (leb 512 x)) [
  | inl past ↦
      rw past (
        add_far-Pending p k x t w v (omega arith) (ground arith)
          (omega (arith, v.shape.work_index)))
  | inr within ↦ rw within (
      near (
        into_work p k x w w.tasks t v e (ground (arith, v.shape.work_index))
          (ground (arith, v.shape.work_index))))
]
  where
    k : ℕ
    k = ticks_of t.next_fire_duration_ms

    x : ℕ
    x = add_u64 w.current_work_wheel_index k
