-- ===== src/Timer/Wheel/Others.antt =====
-- What happens to other tasks does not change how long a task waits.
use cyber_rt_standalone_r.Prelude.{
  ℕ, ◌/◌, ◌%◌, ◌≡◌, ◌≢◌, ◌⊎◌, inl, inr, refl, ◌∙◌, Option, arith, ◌==◌, ltb, leb, ◌&&◌, add_u64,
  length-set, Bool-cases,
}
use cyber_rt_standalone_r.Timer.Wheel.{
  TimerTask, TimingWheel, is_alive, add_far, add_started, add_task, place, release, ticks_of,
  push_back, start, update,
}
use cyber_rt_standalone_r.Timer.Wheel.Buckets.{count, bucket, count-push_other}
use cyber_rt_standalone_r.Timer.Wheel.Waiting.{Pending, never, near, far}
use cyber_rt_standalone_r.Timer.Wheel.Rounds.{Shape}

-- `u` is `w` for the task `p`: what happened between them was to other tasks.
pub record IsSame (p : ℕ) (w u : TimingWheel) : Type 0 where
  pub shape : Shape u
  pub work_at : u.current_work_wheel_index ≡ w.current_work_wheel_index
  pub assistant_at : u.current_assistant_wheel_index ≡ w.current_assistant_wheel_index
  pub heap : u.tasks p ≡ w.tasks p
  pub work_counts : (i : ℕ) → count p (bucket u.work_wheel i) ≡ count p (bucket w.work_wheel i)
  pub assistant_counts :
      (j : ℕ) → count p (bucket u.assistant_wheel j) ≡ count p (bucket w.assistant_wheel j)

is_alive-eq : (p : ℕ) (u w : TimingWheel) → u.tasks p ≡ w.tasks p → is_alive u p ≡ is_alive w p
is_alive-eq p u w e = rw (e, is_alive)

pub Pending-Shape : {p : ℕ} {w : TimingWheel} {o : Option ℕ} → Pending p w o → Shape w
Pending-Shape (never v) = v.shape
Pending-Shape (near v) = v.shape
Pending-Shape (far m t v e) = v.shape

pub Pending-IsSame :
    {p : ℕ} {w u : TimingWheel} {o : Option ℕ} → IsSame p w u → Pending p w o → Pending p u o
Pending-IsSame s (never v) = never (record {
  shape = s.shape;
  work_counts = λ i. s.work_counts i ∙ v.work_counts i;
  assistant_counts = λ j. s.assistant_counts j ∙ v.assistant_counts j;
})
Pending-IsSame {p} {w} {u} s (near {n = n} v) = near (record {
  shape = s.shape;
  near = v.near;
  living = is_alive-eq p u w s.heap ∙ v.living;
  work_counts = λ i. rw s.work_at (s.work_counts i ∙ v.work_counts i);
  assistant_counts = λ j. s.assistant_counts j ∙ v.assistant_counts j;
})
Pending-IsSame s (far m t v e) =
    far m t
      (record {
        shape = s.shape;
        ahead = v.ahead;
        reach = v.reach;
        living = s.heap ∙ v.living;
        remainder = v.remainder;
        work_counts = λ i. s.work_counts i ∙ v.work_counts i;
        assistant_counts = λ j. rw s.assistant_at (s.assistant_counts j ∙ v.assistant_counts j);
      })
      (rw s.work_at e)

pub release-IsSame : (p q : ℕ) (w : TimingWheel) → q ≢ p → Shape w → IsSame p w (release w q)
release-IsSame p q w ne s = record {
  shape = record {
    work_sized = s.work_sized;
    assistant_sized = s.assistant_sized;
    work_index = s.work_index;
    assistant_index = s.assistant_index;
  };
  work_at = refl;
  assistant_at = refl;
  heap = ground arith;
  work_counts = λ i. refl;
  assistant_counts = λ j. refl;
}

-- Another task is put into a bucket of the one wheel or the other.
work-IsSame :
    (p q i : ℕ) (w : TimingWheel) (heap : ℕ → Option TimerTask)
    → q ≢ p
    → Shape w
    → heap p ≡ w.tasks p
    → IsSame p w (record w { tasks = heap; work_wheel = push_back w.work_wheel i q })
work-IsSame p q i w heap ne s e = record {
  shape = record {
    work_sized = length-set w.work_wheel i _ ∙ s.work_sized;
    assistant_sized = s.assistant_sized;
    work_index = s.work_index;
    assistant_index = s.assistant_index;
  };
  work_at = refl;
  assistant_at = refl;
  heap = e;
  work_counts = λ j. count-push_other p q w.work_wheel i j ne;
  assistant_counts = λ j. refl;
}

assistant-IsSame :
    (p q i : ℕ) (w : TimingWheel) (heap : ℕ → Option TimerTask)
    → q ≢ p
    → Shape w
    → heap p ≡ w.tasks p
    → IsSame p w (record w { tasks = heap; assistant_wheel = push_back w.assistant_wheel i q })
assistant-IsSame p q i w heap ne s e = record {
  shape = record {
    work_sized = s.work_sized;
    assistant_sized = length-set w.assistant_wheel i _ ∙ s.assistant_sized;
    work_index = s.work_index;
    assistant_index = s.assistant_index;
  };
  work_at = refl;
  assistant_at = refl;
  heap = e;
  work_counts = λ j. refl;
  assistant_counts = λ j. count-push_other p q w.assistant_wheel i j ne;
}

update_other :
    (p q : ℕ) (heap : ℕ → Option TimerTask) (t : TimerTask) → q ≢ p → update heap q t p ≡ heap p
update_other p q heap t ne = ground arith

add_far-IsSame :
    (p q x : ℕ) (t : TimerTask) (w : TimingWheel) → q ≢ p → Shape w → IsSame p w (add_far w q t x)
unfolding add_far
add_far-IsSame p q x t w ne s =
    elim (Bool-cases (x / 512 == 1 && ltb (x % 512) w.current_work_wheel_index)) [
      | inl behind ↦ rw behind (work-IsSame p q _ w _ ne s (update_other p q w.tasks _ ne))
      | inr ahead ↦ rw ahead (assistant-IsSame p q _ w _ ne s (update_other p q w.tasks _ ne))
    ]

pub add_started-IsSame :
    (p q : ℕ) (t : TimerTask) (w : TimingWheel) → q ≢ p → Shape w → IsSame p w (add_started w q t)
unfolding add_started
add_started-IsSame p q t w ne s =
    elim (Bool-cases
      (leb 512 (add_u64 w.current_work_wheel_index (ticks_of t.next_fire_duration_ms)))) [
        | inl past ↦ rw past (add_far-IsSame p q _ t w ne s)
        | inr within ↦ rw within (work-IsSame p q _ w w.tasks ne s refl)
      ]

-- `AddTask` on a wheel that stands starts it, which no task sees.
pub add_task-cases :
    (w : TimingWheel) (q : ℕ) (t : TimerTask)
    → (add_task w q t ≡ add_started w q t) ⊎ (add_task w q t ≡ add_started (start w) q t)
unfolding add_task
add_task-cases w q t = elim (Bool-cases w.running) [ inl e ↦ inl (rw e) | inr e ↦ inr (rw e) ]

pub placed-IsSame :
    (p q : ℕ) (t : TimerTask) (w : TimingWheel) → q ≢ p → Shape w → IsSame p w (place w q t)
placed-IsSame p q t w ne s = record {
  shape = record {
    work_sized = s.work_sized;
    assistant_sized = s.assistant_sized;
    work_index = s.work_index;
    assistant_index = s.assistant_index;
  };
  work_at = refl;
  assistant_at = refl;
  heap = update_other p q w.tasks t ne;
  work_counts = λ i. refl;
  assistant_counts = λ j. refl;
}

pub started-IsSame : (p : ℕ) (w : TimingWheel) → Shape w → IsSame p w (start w)
unfolding start
started-IsSame p w s = record {
  shape = record {
    work_sized = s.work_sized;
    assistant_sized = s.assistant_sized;
    work_index = s.work_index;
    assistant_index = s.assistant_index;
  };
  work_at = refl;
  assistant_at = refl;
  heap = refl;
  work_counts = λ i. refl;
  assistant_counts = λ j. refl;
}
