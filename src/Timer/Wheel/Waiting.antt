-- ===== src/Timer/Wheel/Waiting.antt =====
-- How long a task has to wait, and that each round brings it one nearer.
use cyber_rt_standalone_r.Prelude.{ℕ, zero, suc, ◌+◌, ◌*◌, ◌≡◌, inl, inr, Option, some, none, arith}
use cyber_rt_standalone_r.Timer.Wheel.{TimerTask, TimingWheel}
use cyber_rt_standalone_r.Timer.Wheel.Buckets.{count}
use cyber_rt_standalone_r.Timer.Wheel.Rounds.{IsAbsent, IsNear, IsFar, round, turn_cases}
use cyber_rt_standalone_r.Timer.Wheel.Moves.{
  round-IsAbsent, round-IsNear_zero, round-IsNear, round-IsFar_same, round-IsFar_down,
  round-IsFar_nearer, far_unfired,
}

-- `p` is due in `n` rounds, or never.
pub data Pending (p : ℕ) (w : TimingWheel) : Option ℕ → Type 0 where
  never : IsAbsent p w → Pending p w none
  near : {n : ℕ} → IsNear p n w → Pending p w (some n)
  far :
      {n : ℕ} (m : ℕ) (t : TimerTask)
      → IsFar p m t w
      → n + w.current_work_wheel_index ≡ m * 512 + t.remainder_interval_ms
      → Pending p w (some n)

-- What is left to wait after a round.
abbrev pub after_round : Option ℕ → Option ℕ
after_round none = none
after_round (some zero) = none
after_round (some (suc n)) = some n

abbrev pub due_now : Option ℕ → ℕ
due_now none = 0
due_now (some zero) = 1
due_now (some (suc n)) = 0

pub round-Pending :
    (p : ℕ) (w : TimingWheel) (o : Option ℕ)
    → Pending p w o
    → (count p (round w).0 ≡ due_now o) × Pending p (round w).1 (after_round o)
round-Pending p w none (never v) = let (c, v') = round-IsAbsent p w v in (c, never v')
round-Pending p w (some zero) (near v) = let (c, v') = round-IsNear_zero p w v in (c, never v')
round-Pending p w (some (suc n)) (near v) = let (c, v') = round-IsNear p n w v in (c, near v')
round-Pending p w (some zero) (far m t v e) = absurd (grind (arith, v.ahead, v.shape.work_index))
round-Pending p w (some (suc n)) (far zero t v e) = absurd (omega (arith, v.ahead))
round-Pending p w (some (suc n)) (far (suc zero) t v e) = elim (turn_cases w v.shape) [
  | inl (h, r) ↦ rw r (far_unfired p 1 t w v, far 1 t (round-IsFar_same p 1 t w v h) (omega arith))
  | inr (a, h, small, step, r) ↦
      let at : n ≡ t.remainder_interval_ms = omega arith in
      rw (r, at) (far_unfired p 1 t w v, near (round-IsFar_down p t w a v small step))
]
round-Pending p w (some (suc n)) (far (suc (suc m)) t v e) = elim (turn_cases w v.shape) [
  | inl (h, r) ↦
      rw r (far_unfired p _ t w v, far (suc (suc m)) t (round-IsFar_same p _ t w v h) (omega arith))
  | inr (a, h, small, step, r) ↦ rw r (
    far_unfired p _ t w v,
    far (suc m) t (round-IsFar_nearer p m t w a v small step) (omega arith),
  )
]
