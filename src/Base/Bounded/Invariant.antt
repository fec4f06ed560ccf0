-- ===== src/Base/Bounded/Invariant.antt =====
-- What holds between the steps of any interleaving.
use cyber_rt_standalone_r.Prelude.{
  ℕ, ◌+◌, ◌-◌, ◌%◌, ◌^◌, ◌≤◌, ◌<◌, ◌≡◌, ◌≢◌, Option, some, none, length, get_or, take, arith,
}
use native.Mathlib.Nat.{div-add-mod'}
use cyber_rt_standalone_r.Base.Bounded.{
  Shared, Phase, idle, tail_loaded, tail_checked, claimed, stored, head_loaded, head_checked,
  copied, get_index, System,
}

pub get_index_lem : (n num : ℕ) → get_index n num ≡ num % n
unfolding get_index
get_index_lem n num = omega (arith, div-add-mod' num n)

-- The place that a thread has claimed and not committed.
abbrev pub owned : {T : Type 0} → Phase T → Option ℕ
owned (claimed t x) = some t
owned (stored t) = some t
owned _ = none

module _ {T : Type 0} (default : T) where
  -- The element that the place `p` was claimed for; places are counted from 1.
  abbrev pub element : Shared T → ℕ → T
  element m p = get_or m.log (p - 1) default

  abbrev pub slot : Shared T → ℕ → T
  slot m p = get_or m.pool (p % m.pool_size) default

  -- The shared part, with `n` steps still to come.
  pub record IsSound (n : ℕ) (m : Shared T) : Type 0 where
    pub room : 0 < m.pool_size
    pub full : length m.pool ≡ m.pool_size
    pub counted : m.tail ≡ 1 + length m.log
    pub ordered : (m.head < m.commit) × (m.commit ≤ m.tail)
    pub bounded : m.tail < m.head + m.pool_size
    pub small : m.tail + n < 2 ^ 64
    pub filled : (p : ℕ) → m.head < p → p < m.commit → slot m p ≡ element m p
    pub handed : m.out ≡ take m.head m.log

  -- What the local variables of a thread say.
  abbrev pub Knows : Shared T → Phase T → Type 0
  Knows m idle = Unit
  Knows m (tail_loaded t x) = t ≤ m.tail
  Knows m (tail_checked t x) = (t ≤ m.tail) × (t ≡ m.tail → t + 1 < m.head + m.pool_size)
  Knows m (claimed t x) = (m.commit ≤ t) × (t < m.tail) × (element m t ≡ x)
  Knows m (stored t) = (m.commit ≤ t) × (t < m.tail) × (slot m t ≡ element m t)
  Knows m (head_loaded h) = h ≤ m.head
  Knows m (head_checked h) = (h ≤ m.head) × (h + 1 < m.commit)
  Knows m (copied h v) = (h ≤ m.head) × (h + 1 < m.commit) × (h ≡ m.head → v ≡ element m (h + 1))

  pub record IsGood (n : ℕ) (s : System T) : Type 0 where
    pub sound : IsSound n s.shared
    pub knows : (i : ℕ) → Knows s.shared (s.phase_of i)
    pub apart : (i j t : ℕ) → i ≢ j → owned (s.phase_of i) ≡ some t → owned (s.phase_of j) ≢ some t
