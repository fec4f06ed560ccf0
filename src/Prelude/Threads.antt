-- ===== src/Prelude/Threads.antt =====
-- Threads that take steps on shared state in any order: each is a number, with the phase it is in.
use Prim.Native.Nat.{ℕ}
use native.Mathlib.Omega.{arith}
use mathlib.Core.Path.{◌≡◌, refl}
use mathlib.Core.Logic.{◌≢◌, ◌⊎◌, inl, inr}
use cyber_rt_standalone_r.Prelude.Tests.{◌==◌, if◌then◌else◌, ==_iff, Bool-cases}

abbrev pub update : {A : Type 0} → (ℕ → A) → ℕ → A → ℕ → A
update f i a j = if j == i then a else f j

pub update_cases :
    {A : Type 0} (f : ℕ → A) (i : ℕ) (a : A) (j : ℕ)
    → ((j ≡ i) × (update f i a j ≡ a)) ⊎ ((j ≢ i) × (update f i a j ≡ f j))
update_cases f i a j = elim (Bool-cases (j == i)) [
  | inl e ↦ inl ((==_iff j i).0 e, rw e refl)
  | inr e ↦ inr (λ q. absurd (ground (arith, e, q)), rw e refl)
]
