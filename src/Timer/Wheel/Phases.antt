-- ===== src/Timer/Wheel/Phases.antt =====
-- What a task waits for while the tick thread is in the middle of a round: what it will wait for once the
-- round is over, if nothing else comes. Other tasks do not change it.
use cyber_rt_standalone_r.Prelude.{
  ℕ, suc, sym, subst, true, false, ◌+◌, ◌^◌, ◌%◌, ◌<◌, ◌≡◌, ◌≢◌, inl, inr, refl, ◌∙◌, Option, some,
  arith, ◌==◌, length-set, Bool-cases,
}
use cyber_rt_standalone_r.Timer.Wheel.{
  TimerTask, TimingWheel, Phase, ticking, sleeping, turning, cascading, tick, tick_step, turn_work,
  turn_assistant, cascade, add_task, place, release, start,
}
use cyber_rt_standalone_r.Timer.Wheel.Buckets.{
  count, bucket, count-set_nil, count-move_down_any, length-move_down,
}
use cyber_rt_standalone_r.Timer.Wheel.Rounds.{Shape, advance, round}
use cyber_rt_standalone_r.Timer.Wheel.Waiting.{
  Pending, near, far, after_round, due_now, round-Pending,
}
use cyber_rt_standalone_r.Timer.Wheel.Others.{
  IsSame, Pending-Shape, Pending-IsSame, release-IsSame, add_started-IsSame, placed-IsSame,
  started-IsSame, add_task-cases,
}

-- The wheel at the end of the round.
unfoldable pub finish : Phase → TimingWheel → TimingWheel
finish ticking w = w
finish sleeping w = advance w
finish turning w = cascade (turn_assistant w) (turn_assistant w).current_assistant_wheel_index
finish cascading w = cascade w w.current_assistant_wheel_index

finish-turn_work : (w : TimingWheel) → finish (turn_work w).0 (turn_work w).1 ≡ advance w
unfolding finish turn_work advance turn_assistant
finish-turn_work w = elim (Bool-cases ((w.current_work_wheel_index + 1) % 2 ^ 64 % 512 == 0)) [
  | inl e ↦ rw e refl
  | inr e ↦ rw e refl
]

Shape-cascade : (w : TimingWheel) (a : ℕ) → Shape w → Shape (cascade w a)
unfolding cascade
Shape-cascade w a s = record {
  work_sized = length-move_down w.tasks (bucket w.assistant_wheel a) w.work_wheel ∙ s.work_sized;
  assistant_sized = length-set w.assistant_wheel _ _ ∙ s.assistant_sized;
  work_index = s.work_index;
  assistant_index = s.assistant_index;
}

Shape-turn_work : (w : TimingWheel) → Shape w → Shape (turn_work w).1
unfolding turn_work
Shape-turn_work w s = record {
  work_sized = s.work_sized;
  assistant_sized = s.assistant_sized;
  work_index = omega arith;
  assistant_index = s.assistant_index;
}

Shape-turn_assistant : (w : TimingWheel) → Shape w → Shape (turn_assistant w)
unfolding turn_assistant
Shape-turn_assistant w s = record {
  work_sized = s.work_sized;
  assistant_sized = s.assistant_sized;
  work_index = s.work_index;
  assistant_index = omega arith;
}

cascade-IsSame :
    (p i k : ℕ) (w u : TimingWheel)
    → k ≡ i
    → i < 64
    → Shape w
    → IsSame p w u
    → IsSame p (cascade w i) (cascade u k)
unfolding cascade
cascade-IsSame p i k w u e h v s = rw e (record {
  shape = Shape-cascade u i s.shape;
  work_at = s.work_at;
  assistant_at = s.assistant_at;
  heap = s.heap;
  work_counts = λ j. ground (
    arith,
    count-move_down_any p 512 (w.tasks p) u.tasks (bucket u.assistant_wheel i) u.work_wheel j s.heap
        s.shape.work_sized,
    count-move_down_any p 512 (w.tasks p) w.tasks (bucket w.assistant_wheel i) w.work_wheel j refl
        v.work_sized,
    s.work_counts j,
    s.assistant_counts i,
  );
  assistant_counts = λ j. ground (
    arith,
    count-set_nil p u.assistant_wheel i j (omega (arith, s.shape.assistant_sized)),
    count-set_nil p w.assistant_wheel i j (omega (arith, v.assistant_sized)),
    s.assistant_counts j,
  );
})

turn_assistant-IsSame :
    (p : ℕ) (w u : TimingWheel) → IsSame p w u → IsSame p (turn_assistant w) (turn_assistant u)
unfolding turn_assistant
turn_assistant-IsSame p w u s = record {
  shape = Shape-turn_assistant u s.shape;
  work_at = s.work_at;
  assistant_at = rw s.assistant_at refl;
  heap = s.heap;
  work_counts = s.work_counts;
  assistant_counts = s.assistant_counts;
}

turn_work-IsSame :
    (p : ℕ) (w u : TimingWheel) → IsSame p w u → IsSame p (turn_work w).1 (turn_work u).1
unfolding turn_work
turn_work-IsSame p w u s = record {
  shape = Shape-turn_work u s.shape;
  work_at = rw s.work_at refl;
  assistant_at = s.assistant_at;
  heap = s.heap;
  work_counts = s.work_counts;
  assistant_counts = s.assistant_counts;
}

advance-IsSame :
    (p : ℕ) (w u : TimingWheel) → Shape w → IsSame p w u → IsSame p (advance w) (advance u)
unfolding advance turn_work turn_assistant
advance-IsSame p w u v s =
    let s' : IsSame p (turn_work w).1 (turn_work u).1 = turn_work-IsSame p w u s in
    let t : IsSame p (turn_assistant (turn_work w).1) (turn_assistant (turn_work u).1) =
      turn_assistant-IsSame p _ _ s' in
    let v' : Shape (turn_assistant (turn_work w).1) =
      Shape-turn_assistant _ (Shape-turn_work w v) in
    elim (Bool-cases ((w.current_work_wheel_index + 1) % 2 ^ 64 % 512 == 0)) [
      | inl e ↦
          let e' : ((u.current_work_wheel_index + 1) % 2 ^ 64 % 512 == 0) ≡ true = rw s.work_at e in
          rw (e, e') (cascade-IsSame p _ _ _ _ t.assistant_at v'.assistant_index v' t)
      | inr e ↦
          let e' : ((u.current_work_wheel_index + 1) % 2 ^ 64 % 512 == 0) ≡ false =
            rw s.work_at e in
          rw (e, e') s'
    ]

finish-IsSame :
    (p : ℕ) (c : Phase) (w u : TimingWheel)
    → Shape w
    → IsSame p w u
    → IsSame p (finish c w) (finish c u)
unfolding finish
finish-IsSame p ticking w u v s = s
finish-IsSame p cascading w u v s = cascade-IsSame p _ _ w u s.assistant_at v.assistant_index v s
finish-IsSame p turning w u v s =
    let s' : IsSame p (turn_assistant w) (turn_assistant u) = turn_assistant-IsSame p w u s in
    let v' : Shape (turn_assistant w) = Shape-turn_assistant w v in
    cascade-IsSame p _ _ (turn_assistant w) (turn_assistant u) s'.assistant_at v'.assistant_index v'
      s'
finish-IsSame p sleeping w u v s = advance-IsSame p w u v s

-- `p` is due after the ticks of `o` that come once the round at hand is over.
abbrev pub MidPending : ℕ → Phase → TimingWheel → Option ℕ → Type 0
MidPending p c w o = Shape w × Pending p (finish c w) o

Mid-IsSame :
    (p : ℕ) (c : Phase) (w u : TimingWheel) (o : Option ℕ)
    → IsSame p w u
    → MidPending p c w o
    → MidPending p c u o
Mid-IsSame p c w u o s (v, h) = (s.shape, Pending-IsSame (finish-IsSame p c w u v s) h)

-- Steps of the tick thread: each `Tick` brings the task nearer, the others change nothing.
pub Mid-tick_step :
    (p : ℕ) (w : TimingWheel) (o : Option ℕ)
    → MidPending p ticking w o
    → (count p (tick_step w).0 ≡ due_now o) × MidPending p sleeping (tick_step w).1 (after_round o)
unfolding finish round tick_step tick
Mid-tick_step p w o (v, h) =
    let (now, later) = round-Pending p w o h in
    (
      now,
      (
        record {
          work_sized = length-set w.work_wheel _ _ ∙ v.work_sized;
          assistant_sized = v.assistant_sized;
          work_index = v.work_index;
          assistant_index = v.assistant_index;
        },
        later,
      ),
    )

pub Mid-turn_work :
    (p : ℕ) (w : TimingWheel) (o : Option ℕ)
    → MidPending p sleeping w o
    → MidPending p (turn_work w).0 (turn_work w).1 o
unfolding finish
Mid-turn_work p w o (v, h) =
    (Shape-turn_work w v, subst (λ u. Pending p u o) (sym (finish-turn_work w)) h)

pub Mid-turn_assistant :
    (p : ℕ) (w : TimingWheel) (o : Option ℕ)
    → MidPending p turning w o
    → MidPending p cascading (turn_assistant w) o
unfolding finish
Mid-turn_assistant p w o (v, h) = (Shape-turn_assistant w v, h)

pub Mid-cascade :
    (p : ℕ) (w : TimingWheel) (o : Option ℕ)
    → MidPending p cascading w o
    → MidPending p ticking (cascade w w.current_assistant_wheel_index) o
unfolding finish
Mid-cascade p w o (v, h) = (Shape-cascade w _ v, h)

-- Other tasks that are added or dropped change nothing either.
pub Mid-adds :
    (p q : ℕ) (t : TimerTask) (c : Phase) (w : TimingWheel) (o : Option ℕ)
    → q ≢ p
    → MidPending p c w o
    → MidPending p c (add_task (place w q t) q t) o
Mid-adds p q t c w o ne v =
    let placed : MidPending p c (place w q t) o =
      Mid-IsSame p c w _ o (placed-IsSame p q t w ne v.0) v in
    let started : MidPending p c (start (place w q t)) o =
      Mid-IsSame p c _ _ o (started-IsSame p (place w q t) placed.0) placed in
    elim (add_task-cases (place w q t) q t) [
      | inl e ↦ rw e (Mid-IsSame p c _ _ o (add_started-IsSame p q t _ ne placed.0) placed)
      | inr e ↦ rw e (Mid-IsSame p c _ _ o (add_started-IsSame p q t _ ne started.0) started)
    ]

pub Mid-drops :
    (p q : ℕ) (c : Phase) (w : TimingWheel) (o : Option ℕ)
    → q ≢ p
    → MidPending p c w o
    → MidPending p c (release w q) o
Mid-drops p q c w o ne v = Mid-IsSame p c w _ o (release-IsSame p q w ne v.0) v

-- A task that is put into the wheel during the sleep, with one tick or more to wait, has been put there
-- before the next tick: the bucket that the last tick emptied does not concern it.
not_here :
    (p n : ℕ) (w : TimingWheel)
    → Pending p w (some (suc n))
    → count p (bucket w.work_wheel w.current_work_wheel_index) ≡ 0
not_here p n w (near v) =
    ground (arith, v.work_counts w.current_work_wheel_index, v.near, v.shape.work_index)
not_here p n w (far m t v e) = v.work_counts w.current_work_wheel_index

emptied-IsSame :
    (p n : ℕ) (w : TimingWheel) → Pending p w (some (suc n)) → IsSame p (tick_step w).1 w
unfolding tick_step tick
emptied-IsSame p n w v =
    let s : Shape w = Pending-Shape v in
    record {
      shape = s;
      work_at = refl;
      assistant_at = refl;
      heap = refl;
      work_counts = λ i. ground (
        arith,
        count-set_nil p w.work_wheel w.current_work_wheel_index i
            (omega (arith, s.work_sized, s.work_index)),
        not_here p n w v,
      );
      assistant_counts = λ j. refl;
    }

pub Mid-sleeping :
    (p n : ℕ) (w : TimingWheel) → Pending p w (some (suc n)) → MidPending p sleeping w (some n)
unfolding finish
Mid-sleeping p n w v =
    Mid-IsSame p sleeping _ w (some n) (emptied-IsSame p n w v)
      (Mid-tick_step p w (some (suc n)) (Pending-Shape v, v)).1
