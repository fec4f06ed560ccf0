-- ===== src/Base/Bounded/Steps.antt =====
-- What each kind of step keeps.
use cyber_rt_standalone_r.Prelude.{
  ℕ, zero, suc, ◌+◌, ◌-◌, ◌≤◌, ◌<◌, ◌≡◌, ◌≢◌, ◌⊎◌, inl, inr, refl, sym, ap, ◌∙◌, List, [], ◌∷◌,
  ◌++◌, some, length, length-append, get_or, get_or-append_left, get_or-append_length, take, arith,
}
use mathlib.Core.Option.{some-injective}
use cyber_rt_standalone_r.Base.Bounded.{
  Shared, Phase, idle, tail_loaded, tail_checked, claimed, stored, head_loaded, head_checked,
  copied,
}
use cyber_rt_standalone_r.Base.Bounded.Invariant.{element, IsSound, Knows, owned}

take-append_left :
    {A : Type 0} (n : ℕ) (xs ys : List A) → n ≤ length xs → take n (xs ++ ys) ≡ take n xs
take-append_left zero xs ys h = refl
take-append_left (suc n) [] ys h = absurd (omega arith)
take-append_left (suc n) (x ∷ xs) ys h = ap (◌∷◌ x) (take-append_left n xs ys (omega arith))

pub take-suc :
    {A : Type 0} (n : ℕ) (xs : List A) (d : A)
    → n < length xs
    → take (suc n) xs ≡ take n xs ++ get_or xs n d ∷ []
take-suc n [] d h = absurd (omega arith)
take-suc zero (x ∷ xs) d h = refl
take-suc (suc n) (x ∷ xs) d h = ap (◌∷◌ x) (take-suc n xs d (omega arith))

module _ {T : Type 0} (default : T) where
  -- What is left of a thread's knowledge when another thread, which owned what `p` owns, has moved.
  abbrev pub Spares : Shared T → Phase T → Shared T → Type 0
  Spares m p m' =
      (q : Phase T)
      → Knows default m q
      → ((t : ℕ) → owned p ≡ some t → owned q ≢ some t)
      → Knows default m' q

  pub record Keeps (n : ℕ) (m : Shared T) (p p' : Phase T) (m' : Shared T) : Type 0 where
    pub sound : IsSound default n m'
    pub knows : Knows default m' p'
    pub spares : Spares m p m'
    pub owns : (t : ℕ) → owned p' ≡ some t → (owned p ≡ some t) ⊎ (t ≡ m.tail)

  sooner : (n : ℕ) (m : Shared T) → IsSound default (suc n) m → IsSound default n m
  sooner n m s = record {
    room = s.room;
    full = s.full;
    counted = s.counted;
    ordered = s.ordered;
    bounded = s.bounded;
    small = omega (arith, s.small);
    filled = s.filled;
    handed = s.handed;
  }

  -- A step that changes nothing that is shared.
  pub quiet :
      (n : ℕ) (m : Shared T) (p p' : Phase T)
      → IsSound default (suc n) m
      → Knows default m p'
      → ((t : ℕ) → owned p' ≡ some t → owned p ≡ some t)
      → Keeps n m p p' m
  quiet n m p p' s k e = record {
    sound = sooner n m s;
    knows = k;
    spares = λ q h a. h;
    owns = λ t o. inl (e t o);
  }

  module _ (n : ℕ) (m : Shared T) (s : IsSound default (suc n) m) where
    -- A claim of the place at the tail.
    module _ (x : T) (b : m.tail + 1 < m.head + m.pool_size) (t' : ℕ) (e : t' ≡ m.tail + 1) where
      abbrev claim : Shared T
      claim = record m { tail = t'; log = m.log ++ x ∷ [] }

      element-claim : (p : ℕ) → 0 < p → p < m.tail → element default claim p ≡ element default m p
      element-claim p h l =
          get_or-append_left m.log (x ∷ []) (p - 1) default (omega (arith, s.counted))

      claim-IsSound : IsSound default n claim
      claim-IsSound = record {
        room = s.room;
        full = s.full;
        counted = omega (arith, s.counted, e, length-append m.log (x ∷ []));
        ordered = (s.ordered.0, omega (arith, s.ordered, e));
        bounded = omega (arith, e, b);
        small = omega (arith, s.small, e);
        filled = λ p l u.
            s.filled p l u ∙ sym (element-claim p (omega arith) (omega (arith, s.ordered)));
        handed =
            s.handed
            ∙ sym (take-append_left m.head m.log (x ∷ []) (omega (arith, s.counted, s.ordered)));
      }

      spared : (p : Phase T) → Spares m p claim
      spared p idle k a = tt
      spared p (tail_loaded t y) k a = omega (arith, k, e)
      spared p (tail_checked t y) k a = (omega (arith, k, e), λ h. absurd (omega (arith, k, e)))
      spared p (claimed t y) k a =
          (k.0, omega (arith, k, e), element-claim t (omega (arith, k, s.ordered)) k.1 ∙ k.2)
      spared p (stored t) k a =
          (k.0, omega (arith, k, e), k.2 ∙ sym (element-claim t (omega (arith, k, s.ordered)) k.1))
      spared p (head_loaded h) k a = k
      spared p (head_checked h) k a = k
      spared p (copied h v) k a = (
        k.0,
        k.1,
        λ c. k.2 c ∙ sym (element-claim (h + 1) (omega arith) (omega (arith, k, s.ordered))),
      )

      pub claim-Keeps : (p : Phase T) → Keeps n m p (claimed m.tail x) claim
      claim-Keeps p = record {
        sound = claim-IsSound;
        knows = (
          s.ordered.1,
          omega (arith, e),
          get_or-append_length m.log x (m.tail - 1) default (omega (arith, s.counted)),
        );
        spares = spared p;
        owns = λ t o. inr (sym (some-injective m.tail t o));
      }
