-- ===== src/Messages/Bytes.antt =====
-- Unsigned integers as bytes in memory, the lowest first, as on the processors that Cyber RT runs on.
use cyber_rt_standalone_r.Prelude.{
  ℕ, zero, suc, ◌+◌, ◌*◌, ◌/◌, ◌%◌, ◌^◌, ◌<◌, ◌≡◌, refl, ap, List, [], ◌∷◌, length, arith,
}

-- The `w` bytes of an integer.
unfoldable pub to_bytes : ℕ → ℕ → List ℕ
to_bytes zero n = []
to_bytes (suc w) n = n % 256 ∷ to_bytes w (n / 256)

unfoldable pub of_bytes : List ℕ → ℕ
of_bytes [] = 0
of_bytes (b ∷ bs) = b + 256 * of_bytes bs

pub length-to_bytes : (w n : ℕ) → length (to_bytes w n) ≡ w
unfolding to_bytes
length-to_bytes zero n = refl
length-to_bytes (suc w) n = ap suc (length-to_bytes w (n / 256))

div_below : (w n : ℕ) → n < 256 ^ suc w → n / 256 < 256 ^ w
div_below w n h = grind arith

pub of_bytes-to_bytes : (w n : ℕ) → n < 256 ^ w → of_bytes (to_bytes w n) ≡ n
unfolding to_bytes of_bytes
of_bytes-to_bytes zero n h = omega arith
of_bytes-to_bytes (suc w) n h = omega (arith, of_bytes-to_bytes w (n / 256) (div_below w n h))
