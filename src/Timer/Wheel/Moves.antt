-- ===== src/Timer/Wheel/Moves.antt =====
-- What a round does to one task, by where the task stands.
use cyber_rt_standalone_r.Prelude.{
  ℕ, suc, ◌+◌, ◌%◌, ◌<◌, ◌≡◌, inl, inr, ◌∙◌, [], arith, set, length-set,
}
use cyber_rt_standalone_r.Timer.Wheel.{TimerTask, TimingWheel, is_alive}
use cyber_rt_standalone_r.Timer.Wheel.Buckets.{
  count, bucket, count-alive, count-alive_le, count-move_down,
}
use cyber_rt_standalone_r.Timer.Wheel.Rounds.{
  IsAbsent, IsNear, IsFar, round, same_turn, next_turn, fired, same_turn-Shape, next_turn-Shape,
  work-same_turn, work-next_turn, assistant-next_turn, turn_cases,
}

unfired :
    (p : ℕ) (w : TimingWheel)
    → count p (bucket w.work_wheel w.current_work_wheel_index) ≡ 0
    → count p (fired w) ≡ 0
unfired p w e = omega (arith, count-alive_le w p (bucket w.work_wheel w.current_work_wheel_index))

-- A task that is nowhere is not fired, and stays nowhere.
pub round-IsAbsent :
    (p : ℕ) (w : TimingWheel) → IsAbsent p w → (count p (round w).0 ≡ 0) × IsAbsent p (round w).1
round-IsAbsent p w v = elim (turn_cases w v.shape) [
  | inl (h, e) ↦ rw e (
    unfired p w (v.work_counts w.current_work_wheel_index),
    record {
      shape = same_turn-Shape v.shape h;
      work_counts = λ i. ground (arith, work-same_turn p w i v.shape, v.work_counts i);
      assistant_counts = v.assistant_counts;
    },
  )
  | inr (a, h, small, step, e) ↦ rw e (
    unfired p w (v.work_counts w.current_work_wheel_index),
    record {
      shape = next_turn-Shape a v.shape small;
      work_counts = λ i.
          ground (arith, work-next_turn p a w i v.shape (v.assistant_counts a), v.work_counts i);
      assistant_counts =
          λ j. ground (arith, assistant-next_turn p a w j v.shape small, v.assistant_counts j);
    },
  )
]

-- A task in the current bucket is fired once, and then stands nowhere.
pub round-IsNear_zero :
    (p : ℕ) (w : TimingWheel) → IsNear p 0 w → (count p (round w).0 ≡ 1) × IsAbsent p (round w).1
round-IsNear_zero p w v = elim (turn_cases w v.shape) [
  | inl (h, e) ↦ rw e (
    now,
    record {
      shape = same_turn-Shape v.shape h;
      work_counts =
          λ i. ground (arith, work-same_turn p w i v.shape, v.work_counts i, v.shape.work_index);
      assistant_counts = v.assistant_counts;
    },
  )
  | inr (a, h, small, step, e) ↦ rw e (
    now,
    record {
      shape = next_turn-Shape a v.shape small;
      work_counts = λ i. ground (
        arith,
        work-next_turn p a w i v.shape (v.assistant_counts a),
        v.work_counts i,
        v.shape.work_index,
      );
      assistant_counts =
          λ j. ground (arith, assistant-next_turn p a w j v.shape small, v.assistant_counts j);
    },
  )
]
  where
    now : count p (fired w) ≡ 1
    now =
        count-alive w p (bucket w.work_wheel w.current_work_wheel_index) v.living
        ∙ ground (arith, v.work_counts w.current_work_wheel_index, v.shape.work_index)

-- A task in a later work bucket comes one round nearer.
pub round-IsNear :
    (p n : ℕ) (w : TimingWheel)
    → IsNear p (suc n) w
    → (count p (round w).0 ≡ 0) × IsNear p n (round w).1
round-IsNear p n w v = elim (turn_cases w v.shape) [
  | inl (h, e) ↦ rw e (
    later,
    record {
      shape = same_turn-Shape v.shape h;
      near = omega (arith, v.near);
      living = v.living;
      work_counts = λ i.
          ground (arith, work-same_turn p w i v.shape, v.work_counts i, v.shape.work_index, v.near);
      assistant_counts = v.assistant_counts;
    },
  )
  | inr (a, h, small, step, e) ↦ rw e (
    later,
    record {
      shape = next_turn-Shape a v.shape small;
      near = omega (arith, v.near);
      living = v.living;
      work_counts = λ i. ground (
        arith,
        work-next_turn p a w i v.shape (v.assistant_counts a),
        v.work_counts i,
        v.shape.work_index,
        v.near,
      );
      assistant_counts =
          λ j. ground (arith, assistant-next_turn p a w j v.shape small, v.assistant_counts j);
    },
  )
]
  where
    later : count p (fired w) ≡ 0
    later =
        unfired p w
          (ground (arith, v.work_counts w.current_work_wheel_index, v.shape.work_index, v.near))

pub far_unfired :
    (p m : ℕ) (t : TimerTask) (w : TimingWheel) → IsFar p m t w → count p (fired w) ≡ 0
far_unfired p m t w v = unfired p w (v.work_counts w.current_work_wheel_index)

-- A task in the assistant wheel stays where it is until the work wheel has turned.
pub round-IsFar_same :
    (p m : ℕ) (t : TimerTask) (w : TimingWheel)
    → IsFar p m t w
    → w.current_work_wheel_index + 1 < 512
    → IsFar p m t (same_turn w)
round-IsFar_same p m t w v h = record {
  shape = same_turn-Shape v.shape h;
  ahead = v.ahead;
  reach = v.reach;
  living = v.living;
  remainder = v.remainder;
  work_counts = λ i. ground (arith, work-same_turn p w i v.shape, v.work_counts i);
  assistant_counts = v.assistant_counts;
}

-- Then the next assistant bucket comes down to the work buckets that the remainders name.
pub round-IsFar_down :
    (p : ℕ) (t : TimerTask) (w : TimingWheel) (a : ℕ)
    → IsFar p 1 t w
    → a < 64
    → a ≡ (w.current_assistant_wheel_index + 1) % 64
    → IsNear p t.remainder_interval_ms (next_turn w a)
round-IsFar_down p t w a v small e = record {
  shape = next_turn-Shape a v.shape small;
  near = v.remainder;
  living = rw (v.living, is_alive);
  work_counts = λ i. ground (
    arith,
    v.shape.work_sized,
    v.remainder,
    length-set w.work_wheel w.current_work_wheel_index [],
    count-move_down p t w.tasks (bucket w.assistant_wheel a)
        (set w.work_wheel w.current_work_wheel_index []) i v.living,
    work-same_turn p w i v.shape,
    v.work_counts i,
    v.assistant_counts a,
  );
  assistant_counts =
      λ j. ground (arith, assistant-next_turn p a w j v.shape small, v.assistant_counts j);
}

pub round-IsFar_nearer :
    (p m : ℕ) (t : TimerTask) (w : TimingWheel) (a : ℕ)
    → IsFar p (suc (suc m)) t w
    → a < 64
    → a ≡ (w.current_assistant_wheel_index + 1) % 64
    → IsFar p (suc m) t (next_turn w a)
round-IsFar_nearer p m t w a v small e = record {
  shape = next_turn-Shape a v.shape small;
  ahead = omega arith;
  reach = omega (arith, v.reach);
  living = v.living;
  remainder = v.remainder;
  work_counts = λ i. ground (
    arith,
    work-next_turn p a w i v.shape,
    v.work_counts i,
    v.assistant_counts a,
    v.reach,
    v.shape.assistant_index,
  );
  assistant_counts = λ j. ground (
    arith,
    assistant-next_turn p a w j v.shape small,
    v.assistant_counts j,
    v.reach,
    v.shape.assistant_index,
  );
}
