-- ===== src/Prelude/Int.antt =====
-- Signed counters, and tallies over the phases of threads.
use Prim.Native.Nat.{ℕ, zero, suc, ◌+◌, ◌-◌, ◌^◌, ◌≤◌}
use mathlib.Core.Path.{◌≡◌, refl}
use mathlib.Core.Bool.{Bool, true, false}
use mathlib.Core.List.{List, [], ◌∷◌}
use mathlib.Core.Option.{some}
use native.Mathlib.Omega.{arith}
use cyber_rt_standalone_r.Prelude.Tests.{◌==◌, if◌then◌else◌}
use cyber_rt_standalone_r.Prelude.Lists.{set, get_elem?, replicate, length}

-- `negsuc n` is -(n + 1).
pub data ℤ : Type 0 where
  pos : ℕ → ℤ
  negsuc : ℕ → ℤ

abbrev pub is_neg : ℤ → Bool
is_neg (pos n) = false
is_neg (negsuc n) = true

abbrev pub eqb_ℤ : ℤ → ℤ → Bool
eqb_ℤ (pos a) (pos b) = a == b
eqb_ℤ (pos a) (negsuc b) = false
eqb_ℤ (negsuc a) (pos b) = false
eqb_ℤ (negsuc a) (negsuc b) = a == b

-- `fetch_add(1)` and `fetch_sub(1)`.
abbrev pub succ_ℤ : ℤ → ℤ
succ_ℤ (pos n) = pos (n + 1)
succ_ℤ (negsuc zero) = pos 0
succ_ℤ (negsuc (suc n)) = negsuc n

abbrev pub pred_ℤ : ℤ → ℤ
pred_ℤ (pos zero) = negsuc 0
pred_ℤ (pos (suc n)) = pos n
pred_ℤ (negsuc n) = negsuc (n + 1)

-- The same on 32 bits.
abbrev pub succ_i32 : ℤ → ℤ
succ_i32 (pos n) = if n == 2 ^ 31 - 1 then negsuc (2 ^ 31 - 1) else pos (n + 1)
succ_i32 (negsuc n) = succ_ℤ (negsuc n)

abbrev pub pred_i32 : ℤ → ℤ
pred_i32 (pos n) = pred_ℤ (pos n)
pred_i32 (negsuc n) = if n == 2 ^ 31 - 1 then pos (2 ^ 31 - 1) else negsuc (n + 1)

module _ {A : Type 0} where
  -- The sum of `f` over a list.
  abbrev pub tally : (A → ℕ) → List A → ℕ
  tally f [] = 0
  tally f (x ∷ xs) = f x + tally f xs

  pub tally-set :
      (f : A → ℕ) (xs : List A) (i : ℕ) (old new : A)
      → get_elem? xs i ≡ some old
      → tally f (set xs i new) + f old ≡ tally f xs + f new
  tally-set f [] i old new e = absurd (ground arith)
  tally-set f (x ∷ xs) zero old new e = ground arith
  tally-set f (x ∷ xs) (suc i) old new e = omega (arith, tally-set f xs i old new e)

  -- The tally with the `i`-th thread taken out, and put back in a new phase.
  pub tally-others :
      (f : A → ℕ) (out : A) (xs : List A) (i : ℕ) (old new : A)
      → get_elem? xs i ≡ some old
      → f out ≡ 0
      → (tally f xs ≡ tally f (set xs i out) + f old)
        × (tally f (set xs i new) ≡ tally f (set xs i out) + f new)
  tally-others f out xs i old new e z =
      omega (arith, tally-set f xs i old out e, tally-set f xs i old new e)

  pub tally-replicate : (f : A → ℕ) (a : A) (n : ℕ) → f a ≡ 0 → tally f (replicate n a) ≡ 0
  tally-replicate f a zero e = refl
  tally-replicate f a (suc n) e = omega (arith, tally-replicate f a n e)

  -- A tally of at most one for each.
  pub tally_below : (f : A → ℕ) → ((a : A) → f a ≤ 1) → (xs : List A) → tally f xs ≤ length xs
  tally_below f h [] = omega arith
  tally_below f h (x ∷ xs) = omega (arith, h x, tally_below f h xs)
