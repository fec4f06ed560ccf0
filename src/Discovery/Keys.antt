-- ===== src/Discovery/Keys.antt =====
-- Strings as byte lists, and `std::unordered_map` with string keys as an association list. The order
-- of iteration, which the container leaves open, is that of the list.
use cyber_rt_standalone_r.Prelude.{
  ℕ, ◌≡◌, ◌↔◌, refl, subst, List, [], ◌∷◌, ◌++◌, Bool, true, false, ◌&&◌, ◌||◌, Option, some, none,
  ◌==◌, if◌then◌else◌, arith,
}

abbrev pub Key : Type 0
Key = List ℕ

unfoldable pub key_eq : Key → Key → Bool
key_eq [] [] = true
key_eq [] (y ∷ ys) = false
key_eq (x ∷ xs) [] = false
key_eq (x ∷ xs) (y ∷ ys) = x == y && key_eq xs ys

pub eq_of_key_eq : (a b : Key) → key_eq a b ≡ true → a ≡ b
unfolding key_eq
eq_of_key_eq [] [] h = refl
eq_of_key_eq [] (y ∷ ys) h = cc
eq_of_key_eq (x ∷ xs) [] h = cc
eq_of_key_eq (x ∷ xs) (y ∷ ys) h = ground (arith, eq_of_key_eq xs ys)

pub key_eq_refl : (a : Key) → key_eq a a ≡ true
unfolding key_eq
key_eq_refl [] = refl
key_eq_refl (x ∷ xs) = ground (arith, key_eq_refl xs)

pub key_eq_iff : (a b : Key) → (key_eq a b ≡ true) ↔ (a ≡ b)
key_eq_iff a b = (eq_of_key_eq a b, λ e. subst (λ c. key_eq a c ≡ true) e (key_eq_refl a))

-- Membership of a key in a list.
abbrev pub mem : Key → List Key → Bool
mem k [] = false
mem k (x ∷ xs) = key_eq x k || mem k xs

pub mem-append : (k : Key) (xs ys : List Key) → mem k (xs ++ ys) ≡ (mem k xs || mem k ys)
mem-append k [] ys = refl
mem-append k (x ∷ xs) ys = ground (arith, mem-append k xs ys)

module _ {V : Type 0} where
  unfoldable pub find : Key → List (Key × V) → Option V
  find k [] = none
  find k ((j, v) ∷ m) = if key_eq j k then some v else find k m

  -- `m[k] = v`.
  unfoldable pub assign : Key → V → List (Key × V) → List (Key × V)
  assign k v [] = (k, v) ∷ []
  assign k v ((j, w) ∷ m) = if key_eq j k then (j, v) ∷ m else (j, w) ∷ assign k v m

  unfoldable pub erase : Key → List (Key × V) → List (Key × V)
  erase k [] = []
  erase k ((j, w) ∷ m) = if key_eq j k then erase k m else (j, w) ∷ erase k m

  pub find-assign :
      (k j : Key) (v : V) (m : List (Key × V))
      → find j (assign k v m) ≡ (if key_eq k j then some v else find j m)
  unfolding find assign
  find-assign k j v [] = refl
  find-assign k j v ((i, w) ∷ m) =
      ground (arith, key_eq_iff k j, key_eq_iff i k, key_eq_iff i j, find-assign k j v m)

  pub find-erase :
      (k j : Key) (m : List (Key × V))
      → find j (erase k m) ≡ (if key_eq k j then none else find j m)
  unfolding find erase
  find-erase k j [] = ground arith
  find-erase k j ((i, w) ∷ m) =
      ground (arith, key_eq_iff k j, key_eq_iff i k, key_eq_iff i j, find-erase k j m)

  -- `m[k]`, which makes an entry where there is none.
  abbrev pub find_or : Key → V → List (Key × V) → V
  find_or k d m = elim (find k m) [ some v ↦ v | none ↦ d ]

  abbrev pub values : List (Key × V) → List V
  values [] = []
  values ((k, v) ∷ m) = v ∷ values m

  abbrev pub has : Key → List (Key × V) → Bool
  has k m = elim (find k m) [ some _ ↦ true | none ↦ false ]
