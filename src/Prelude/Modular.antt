-- ===== src/Prelude/Modular.antt =====
-- Remainders of nearby positions.
use Prim.Native.Nat.{ℕ, ◌+◌, ◌%◌, ◌<◌}
use mathlib.Core.Path.{◌≡◌}
use mathlib.Core.Logic.{◌≢◌}
use native.Mathlib.Nat.{div-add-mod}
use native.Mathlib.Omega.{arith}

pub mod-ne_of_near : (a b c : ℕ) → a < b → b < a + c → a % c ≢ b % c
mod-ne_of_near a b c h k e = grind (arith, div-add-mod a c, div-add-mod b c)

pub mod-eq_of_add : (a b c : ℕ) → b ≡ a + c → b % c ≡ a % c
mod-eq_of_add a b c e = grind arith
