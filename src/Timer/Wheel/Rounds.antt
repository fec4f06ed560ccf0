-- ===== src/Timer/Wheel/Rounds.antt =====
-- What one round does to a task that waits in the wheel.
use cyber_rt_standalone_r.Prelude.{
  ℕ, ◌+◌, ◌%◌, ◌≤◌, ◌<◌, ◌≡◌, ◌⊎◌, inl, inr, ◌^◌, refl, ◌∙◌, List, [], true, some, arith, ◌==◌,
  if◌then◌else◌, add_u64, set, length, length-set,
}
use native.Mathlib.Decide.{dec_lt}
use cyber_rt_standalone_r.Timer.Wheel.{
  TimerTask, TimingWheel, is_alive, alive, move_down, tick, tick_step, cascade,
  get_work_wheel_index, get_assistant_wheel_index,
}
use cyber_rt_standalone_r.Timer.Wheel.Buckets.{
  spot, count, bucket, count-set_nil, count-move_down_absent, length-move_down,
}

-- The arrays have their sizes, and the indices are inside them.
pub record Shape (w : TimingWheel) : Type 0 where
  pub work_sized : length w.work_wheel ≡ 512
  pub assistant_sized : length w.assistant_wheel ≡ 64
  pub work_index : w.current_work_wheel_index < 512
  pub assistant_index : w.current_assistant_wheel_index < 64

-- The task `p` stands in no bucket.
pub record IsAbsent (p : ℕ) (w : TimingWheel) : Type 0 where
  pub shape : Shape w
  pub work_counts : (i : ℕ) → count p (bucket w.work_wheel i) ≡ 0
  pub assistant_counts : (j : ℕ) → count p (bucket w.assistant_wheel j) ≡ 0

-- It stands once, in the work bucket that is reached after `n` rounds.
pub record IsNear (p n : ℕ) (w : TimingWheel) : Type 0 where
  pub shape : Shape w
  pub near : n < 512
  pub living : is_alive w p ≡ true
  pub work_counts :
      (i : ℕ) → count p (bucket w.work_wheel i) ≡ spot i ((w.current_work_wheel_index + n) % 512)
  pub assistant_counts : (j : ℕ) → count p (bucket w.assistant_wheel j) ≡ 0

-- It stands once, in the assistant bucket that is `m` on from the current one.
pub record IsFar (p m : ℕ) (t : TimerTask) (w : TimingWheel) : Type 0 where
  pub shape : Shape w
  pub ahead : 0 < m
  pub reach : m ≤ 64
  pub living : w.tasks p ≡ some t
  pub remainder : t.remainder_interval_ms < 512
  pub work_counts : (i : ℕ) → count p (bucket w.work_wheel i) ≡ 0
  pub assistant_counts :
      (j : ℕ)
      → count p (bucket w.assistant_wheel j) ≡ spot j ((w.current_assistant_wheel_index + m) % 64)

-- The rest of a round after the sleep, and a whole round, if nothing comes between its steps.
unfoldable pub advance : TimingWheel → TimingWheel
unfolding cascade
advance w =
    let next = get_work_wheel_index (add_u64 w.current_work_wheel_index 1) in
    let assistant = get_assistant_wheel_index (add_u64 w.current_assistant_wheel_index 1) in
    if next == 0
    then cascade
        (record w { current_work_wheel_index = next; current_assistant_wheel_index = assistant })
        assistant
    else record w { current_work_wheel_index = next }

unfoldable pub round : TimingWheel → List ℕ × TimingWheel
unfolding tick_step
round w = let (fired, w') = tick_step w in (fired, advance w')

-- The wheel after a round that stays in its turn of the work wheel, and after one that ends it.
abbrev pub same_turn : TimingWheel → TimingWheel
same_turn w = record w {
  tick_count = add_u64 w.tick_count 1;
  work_wheel = set w.work_wheel w.current_work_wheel_index [];
  current_work_wheel_index = w.current_work_wheel_index + 1;
}

abbrev pub next_turn : TimingWheel → ℕ → TimingWheel
next_turn w a = record w {
  tick_count = add_u64 w.tick_count 1;
  work_wheel =
      move_down w.tasks (bucket w.assistant_wheel a)
        (set w.work_wheel w.current_work_wheel_index []);
  assistant_wheel = set w.assistant_wheel a [];
  current_work_wheel_index = 0;
  current_assistant_wheel_index = a;
}

abbrev pub fired : TimingWheel → List ℕ
fired w = alive w (bucket w.work_wheel w.current_work_wheel_index)

round_same :
    (w : TimingWheel) → w.current_work_wheel_index + 1 < 512 → round w ≡ (fired w, same_turn w)
unfolding round tick tick_step advance
round_same w h = ground arith

round_next :
    (w : TimingWheel) (a : ℕ)
    → w.current_work_wheel_index ≡ 511
    → w.current_assistant_wheel_index < 64
    → a ≡ (w.current_assistant_wheel_index + 1) % 64
    → round w ≡ (fired w, next_turn w a)
unfolding round tick tick_step advance cascade
round_next w a h k e =
    let zeroed : (w.current_work_wheel_index + 1) % 2 ^ 64 % 512 ≡ 0 = omega arith in
    let turned : (w.current_assistant_wheel_index + 1) % 2 ^ 64 % 64 ≡ a = omega arith in
    rw (zeroed, turned)

pub same_turn-Shape :
    {w : TimingWheel} → Shape w → w.current_work_wheel_index + 1 < 512 → Shape (same_turn w)
same_turn-Shape {w} s h = record {
  work_sized = length-set w.work_wheel _ _ ∙ s.work_sized;
  assistant_sized = s.assistant_sized;
  work_index = h;
  assistant_index = s.assistant_index;
}

pub next_turn-Shape : {w : TimingWheel} (a : ℕ) → Shape w → a < 64 → Shape (next_turn w a)
next_turn-Shape {w} a s h = record {
  work_sized = length-move_down w.tasks _ _ ∙ length-set w.work_wheel _ _ ∙ s.work_sized;
  assistant_sized = length-set w.assistant_wheel _ _ ∙ s.assistant_sized;
  work_index = omega arith;
  assistant_index = h;
}

-- The counts in the work wheel after a round, for a task of which the bucket that is brought down
-- has none.
pub work-same_turn :
    (p : ℕ) (w : TimingWheel) (i : ℕ)
    → Shape w
    → count p (bucket (same_turn w).work_wheel i)
      ≡ (if i == w.current_work_wheel_index then 0 else count p (bucket w.work_wheel i))
work-same_turn p w i s =
    count-set_nil p w.work_wheel w.current_work_wheel_index i
      (omega (arith, s.work_sized, s.work_index))

pub work-next_turn :
    (p a : ℕ) (w : TimingWheel) (i : ℕ)
    → Shape w
    → count p (bucket w.assistant_wheel a) ≡ 0
    → count p (bucket (next_turn w a).work_wheel i)
      ≡ (if i == w.current_work_wheel_index then 0 else count p (bucket w.work_wheel i))
work-next_turn p a w i s e = count-move_down_absent p w.tasks _ _ i e ∙ work-same_turn p w i s

pub assistant-next_turn :
    (p a : ℕ) (w : TimingWheel) (j : ℕ)
    → Shape w
    → a < 64
    → count p (bucket (next_turn w a).assistant_wheel j)
      ≡ (if j == a then 0 else count p (bucket w.assistant_wheel j))
assistant-next_turn p a w j s h =
    count-set_nil p w.assistant_wheel a j (omega (arith, s.assistant_sized))

-- Two ways for a round to go, with the next assistant index where there is one.
pub turn_cases :
    (w : TimingWheel)
    → Shape w
    → ((w.current_work_wheel_index + 1 < 512) × (round w ≡ (fired w, same_turn w)))
      ⊎ ((a : ℕ) × (w.current_work_wheel_index ≡ 511)
          × (a < 64)
          × (a ≡ (w.current_assistant_wheel_index + 1) % 64)
          × (round w ≡ (fired w, next_turn w a)))
turn_cases w s = elim (dec_lt (w.current_work_wheel_index + 1) 512) [
  | yes h ↦ inl (h, round_same w h)
  | no h ↦ inr (
    (w.current_assistant_wheel_index + 1) % 64,
    omega (arith, s.work_index),
    omega arith,
    refl,
    round_next w _ (omega (arith, s.work_index)) s.assistant_index refl,
  )
]
