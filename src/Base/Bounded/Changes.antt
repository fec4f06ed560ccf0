-- ===== src/Base/Bounded/Changes.antt =====
-- What the stores, the commits and the removals of elements keep.
use cyber_rt_standalone_r.Prelude.{
  ℕ, suc, ◌+◌, ◌-◌, ◌%◌, ◌<◌, ◌≡◌, ◌≢◌, inl, refl, sym, ap, ◌∙◌, subst, [], ◌∷◌, ◌++◌, some,
  length-set, get_or, get_or-set_self, get_or-set_ne, set, take, arith, mod-ne_of_near,
}
use native.Mathlib.Nat.{mod-lt}
use native.Mathlib.Decide.{dec_lt}
use cyber_rt_standalone_r.Base.Bounded.{
  Shared, Phase, idle, tail_loaded, tail_checked, claimed, stored, head_loaded, head_checked,
  copied,
}
use cyber_rt_standalone_r.Base.Bounded.Invariant.{element, slot, IsSound, Knows}
use cyber_rt_standalone_r.Base.Bounded.Steps.{Spares, Keeps, take-suc}

-- Places less than a turn apart are in different slots.
slots-ne : (a b h c : ℕ) → h < a → h < b → a < h + c → b < h + c → a ≢ b → a % c ≢ b % c
slots-ne a b h c ha hb la lb n e = elim (dec_lt a b) [
  | yes l ↦ mod-ne_of_near a b c l (omega arith) e
  | no l ↦ mod-ne_of_near b a c (omega (arith, n)) (omega arith) (sym e)
]

module _ {T : Type 0} (default : T) (n : ℕ) (m : Shared T) (s : IsSound default (suc n) m) where
  -- The store of an element at its place.
  module _ (t : ℕ) (x : T) (k : Knows default m (claimed t x)) (i : ℕ)
      (e : i ≡ t % m.pool_size) where
    abbrev store : Shared T
    store = record m { pool = set m.pool i x }

    slot-store : (p : ℕ) → m.head < p → p < m.tail → p ≢ t → slot default store p ≡ slot default m p
    slot-store p l u d = get_or-set_ne m.pool i (p % m.pool_size) x default (λ c.
        slots-ne t p m.head m.pool_size (omega (arith, k, s.ordered)) l
          (omega (arith, k, s.bounded)) (omega (arith, s.bounded)) (λ q. d (sym q)) (sym e ∙ c))

    store-Spares : Spares default m (claimed t x) store
    store-Spares idle h a = tt
    store-Spares (tail_loaded u y) h a = h
    store-Spares (tail_checked u y) h a = h
    store-Spares (claimed u y) h a = h
    store-Spares (stored u) h a =
        (h.0, h.1, slot-store u (omega (arith, h, s.ordered)) h.1 (λ c. a t refl (ap some c)) ∙ h.2)
    store-Spares (head_loaded u) h a = h
    store-Spares (head_checked u) h a = h
    store-Spares (copied u v) h a = h

    pub store-Keeps : Keeps default n m (claimed t x) (stored t) store
    store-Keeps = record {
      sound = record {
        room = s.room;
        full = length-set m.pool i x ∙ s.full;
        counted = s.counted;
        ordered = s.ordered;
        bounded = s.bounded;
        small = omega (arith, s.small);
        filled = λ p l u.
            slot-store p l (omega (arith, u, s.ordered)) (λ c. absurd (omega (arith, c, u, k)))
            ∙ s.filled p l u;
        handed = s.handed;
      };
      knows = (
        k.0,
        k.1,
        ap (λ j. get_or (set m.pool i x) j default) (sym e)
            ∙ get_or-set_self m.pool i x default (omega (arith, e, s.full, mod-lt t s.room))
            ∙ sym k.2,
      );
      spares = store-Spares;
      owns = λ u o. inl o;
    }

  -- The commit of the place next in turn.
  module _ (t : ℕ) (k : Knows default m (stored t)) (c : m.commit ≡ t) (t' : ℕ)
      (e : t' ≡ t + 1) where
    abbrev commits : Shared T
    commits = record m { commit = t' }

    commit-Spares : Spares default m (stored t) commits
    commit-Spares idle h a = tt
    commit-Spares (tail_loaded u y) h a = h
    commit-Spares (tail_checked u y) h a = h
    commit-Spares (claimed u y) h a =
        (omega (arith, h, c, e, λ (q : u ≡ t). a t refl (ap some q)), h.1, h.2)
    commit-Spares (stored u) h a =
        (omega (arith, h, c, e, λ (q : u ≡ t). a t refl (ap some q)), h.1, h.2)
    commit-Spares (head_loaded u) h a = h
    commit-Spares (head_checked u) h a = (h.0, omega (arith, h, c, e))
    commit-Spares (copied u v) h a = (h.0, omega (arith, h, c, e), h.2)

    commit_filled : (p : ℕ) → m.head < p → p < t' → slot default m p ≡ element default m p
    commit_filled p l u = elim (dec_lt p t) [
      | yes b ↦ s.filled p l (omega (arith, b, c))
      | no b ↦ subst (λ q. slot default m q ≡ element default m q) (omega (arith, u, e)) k.2
    ]

    pub commit-Keeps : Keeps default n m (stored t) idle commits
    commit-Keeps = record {
      sound = record {
        room = s.room;
        full = s.full;
        counted = s.counted;
        ordered = (omega (arith, s.ordered, c, e), omega (arith, k, e));
        bounded = s.bounded;
        small = omega (arith, s.small);
        filled = commit_filled;
        handed = s.handed;
      };
      knows = tt;
      spares = commit-Spares;
      owns = λ u o. absurd cc;
    }

  -- The removal of the oldest element.
  module _ (h : ℕ) (v : T) (k : Knows default m (copied h v)) (c : m.head ≡ h) (h' : ℕ)
      (e : h' ≡ h + 1) where
    abbrev takes : Shared T
    takes = record m { head = h'; out = m.out ++ v ∷ [] }

    take-Spares : (p : Phase T) → Spares default m p takes
    take-Spares p idle q a = tt
    take-Spares p (tail_loaded u y) q a = q
    take-Spares p (tail_checked u y) q a = (q.0, λ d. omega (arith, q.1 d, c, e))
    take-Spares p (claimed u y) q a = q
    take-Spares p (stored u) q a = q
    take-Spares p (head_loaded u) q a = omega (arith, q, c, e)
    take-Spares p (head_checked u) q a = (omega (arith, q, c, e), q.1)
    take-Spares p (copied u w) q a =
        (omega (arith, q, c, e), q.1, λ d. absurd (omega (arith, q, c, e, d)))

    out_lem : m.out ++ v ∷ [] ≡ take h' m.log
    out_lem =
        let a : (h + 1) - 1 ≡ h = omega arith in
        let b : suc h ≡ h' = omega (arith, e) in
        ap (λ xs. xs ++ v ∷ []) (s.handed ∙ ap (λ j. take j m.log) c)
        ∙ ap (λ w. take h m.log ++ w ∷ []) (k.2 (sym c) ∙ ap (λ j. get_or m.log j default) a)
        ∙ sym (take-suc h m.log default (omega (arith, k, s.ordered, s.counted)))
        ∙ ap (λ j. take j m.log) b

    pub take-Keeps : Keeps default n m (copied h v) idle takes
    take-Keeps = record {
      sound = record {
        room = s.room;
        full = s.full;
        counted = s.counted;
        ordered = (omega (arith, k, e), s.ordered.1);
        bounded = omega (arith, s.bounded, c, e);
        small = omega (arith, s.small);
        filled = λ p l u. s.filled p (omega (arith, l, c, e)) u;
        handed = out_lem;
      };
      knows = tt;
      spares = take-Spares (copied h v);
      owns = λ u o. absurd cc;
    }
