-- ===== src/Base/Bounded/Order.antt =====
-- What goes in comes out, once and in order, whatever the threads do.
use cyber_rt_standalone_r.Prelude.{
  ℕ, suc, ◌+◌, ◌%◌, ◌^◌, ◌≤◌, ◌<◌, ◌≡◌, ◌≢◌, inl, inr, refl, sym, ap, ◌∙◌, subst, List, [], ◌∷◌,
  ◌++◌, Bool, true, false, ◌&&◌, not, ◌==◌, if◌then◌else◌, some, length, take, arith, mod-eq_of_add,
  add_u64, update, update_cases, length-replicate, get_or,
}
use mathlib.Core.Option.{some-injective}
use cyber_rt_standalone_r.Base.Bounded.{
  Shared, Phase, idle, tail_loaded, tail_checked, claimed, stored, head_loaded, head_checked,
  copied, Action, enqueue, dequeue, go, get_index, init, move, System, moved, step, run, fresh,
}
use cyber_rt_standalone_r.Base.Bounded.Invariant.{get_index_lem, IsSound, Knows, owned, IsGood}
use cyber_rt_standalone_r.Base.Bounded.Steps.{Keeps, quiet, claim-Keeps}
use cyber_rt_standalone_r.Base.Bounded.Changes.{store-Keeps, commit-Keeps, take-Keeps}

module _ {T : Type 0} (default : T) where
  if-Keeps :
      (n : ℕ) (m : Shared T) (p : Phase T) (b : Bool) (x y : Phase T × Shared T)
      → (b ≡ true → Keeps default n m p x.0 x.1)
      → (b ≡ false → Keeps default n m p y.0 y.1)
      → Keeps default n m p (if b then x else y).0 (if b then x else y).1
  if-Keeps n m p true x y f g = f refl
  if-Keeps n m p false x y f g = g refl

  add_small :
      (n : ℕ) (m : Shared T) (t : ℕ) → IsSound default (suc n) m → t ≤ m.tail → add_u64 t 1 ≡ t + 1
  add_small n m t s h = omega (arith, s.small, h)

  -- The test of `Enqueue` leaves a place free.
  test_passed :
      (n : ℕ) (m : Shared T) (t : ℕ)
      → IsSound default (suc n) m
      → t ≤ m.tail
      → (get_index m.pool_size (add_u64 t 1) == get_index m.pool_size m.head) ≡ false
      → t ≡ m.tail
      → t + 1 < m.head + m.pool_size
  test_passed n m t s h b e = ground (
    arith,
    b,
    e,
    s.bounded,
    add_small n m t s h,
    get_index_lem m.pool_size (add_u64 t 1),
    get_index_lem m.pool_size m.head,
    mod-eq_of_add m.head (add_u64 t 1) m.pool_size,
  )

  pub move-Keeps :
      (n : ℕ) (a : Action T) (p : Phase T) (m : Shared T)
      → IsSound default (suc n) m
      → Knows default m p
      → Keeps default n m p (move default a p m).0 (move default a p m).1
  unfolding move
  move-Keeps n (enqueue x) idle m s k =
      quiet default n m idle (tail_loaded m.tail x) s (omega arith) (λ t o. absurd cc)
  move-Keeps n dequeue idle m s k =
      quiet default n m idle (head_loaded m.head) s (omega arith) (λ t o. absurd cc)
  move-Keeps n (go f) (tail_loaded t x) m s k =
      if-Keeps n m (tail_loaded t x)
        (get_index m.pool_size (add_u64 t 1) == get_index m.pool_size m.head) _ _
        (λ b. quiet default n m (tail_loaded t x) idle s tt (λ t o. absurd cc))
        (λ b.
          quiet default n m (tail_loaded t x) (tail_checked t x) s (k, test_passed n m t s k b)
            (λ t o. absurd cc))
  move-Keeps n (go f) (tail_checked t x) m s k =
      if-Keeps n m (tail_checked t x) (not f && m.tail == t) _ _
        (λ b.
          let e : m.tail ≡ t = ground (arith, b) in
          let c : m.tail + 1 < m.head + m.pool_size = omega (arith, k.1 (sym e), e) in
          let a : add_u64 t 1 ≡ m.tail + 1 = omega (arith, add_small n m t s k.0, e) in
          subst
            (λ j.
              Keeps default n m (tail_checked t x) (claimed j x)
                (record m { tail = add_u64 t 1; log = m.log ++ x ∷ [] }))
            e (claim-Keeps default n m s x c (add_u64 t 1) a (tail_checked t x)))
        (λ b.
          quiet default n m (tail_checked t x) (tail_loaded m.tail x) s (omega arith)
            (λ t o. absurd cc))
  move-Keeps n (go f) (claimed t x) m s k =
      store-Keeps default n m s t x k (get_index m.pool_size t) (get_index_lem m.pool_size t)
  move-Keeps n (go f) (stored t) m s k =
      if-Keeps n m (stored t) (not f && m.commit == t) _ _
        (λ b.
          commit-Keeps default n m s t k (ground (arith, b)) (add_u64 t 1)
            (add_small n m t s (omega (arith, k))))
        (λ b. quiet default n m (stored t) (stored t) s k (λ u o. o))
  move-Keeps n (go f) (head_loaded h) m s k =
      if-Keeps n m (head_loaded h) (add_u64 h 1 == m.commit) _ _
        (λ b. quiet default n m (head_loaded h) idle s tt (λ t o. absurd cc))
        (λ b.
          quiet default n m (head_loaded h) (head_checked h) s
            (k, ground (arith, b, add_small n m h s (omega (arith, k, s.ordered)), s.ordered, k))
            (λ t o. absurd cc))
  move-Keeps n (go f) (head_checked h) m s k =
      quiet default n m (head_checked h)
        (copied h (get_or m.pool (get_index m.pool_size (add_u64 h 1)) default)) s
        (
          k.0,
          k.1,
          λ e.
              ap (λ j. get_or m.pool j default)
                (get_index_lem m.pool_size (add_u64 h 1)
                  ∙ ap (λ j. j % m.pool_size) (add_small n m h s (omega (arith, k, s.ordered))))
              ∙ s.filled (h + 1) (omega (arith, e)) k.1,
        )
        (λ t o. absurd cc)
  move-Keeps n (go f) (copied h v) m s k =
      if-Keeps n m (copied h v) (not f && m.head == h) _ _
        (λ b.
          take-Keeps default n m s h v k (ground (arith, b)) (add_u64 h 1)
            (add_small n m h s (omega (arith, k, s.ordered))))
        (λ b.
          quiet default n m (copied h v) (head_loaded m.head) s (omega arith) (λ t o. absurd cc))
  move-Keeps n _ p m s k = quiet default n m p p s k (λ u o. o)

  owned_lt :
      (m : Shared T) (p : Phase T) (t : ℕ) → Knows default m p → owned p ≡ some t → t < m.tail
  owned_lt m idle t k o = absurd cc
  owned_lt m (tail_loaded u x) t k o = absurd cc
  owned_lt m (tail_checked u x) t k o = absurd cc
  owned_lt m (claimed u x) t k o = omega (arith, k, some-injective u t o)
  owned_lt m (stored u) t k o = omega (arith, k, some-injective u t o)
  owned_lt m (head_loaded h) t k o = absurd cc
  owned_lt m (head_checked h) t k o = absurd cc
  owned_lt m (copied h v) t k o = absurd cc

module _ {T : Type 0} (default : T) where
  module _ (n : ℕ) (s : System T) (i : ℕ) (p' : Phase T) (m' : Shared T)
      (g : IsGood default (suc n) s) (k : Keeps default n s.shared (s.phase_of i) p' m') where
    moved-Knows : (j : ℕ) → Knows default m' (update s.phase_of i p' j)
    moved-Knows j = elim (update_cases s.phase_of i p' j) [
      | inl (e, u) ↦ subst (Knows default m') (sym u) k.knows
      | inr (d, u) ↦
          subst (Knows default m') (sym u)
            (k.spares (s.phase_of j) (g.knows j) (λ t o. g.apart i j t (λ e. d (sym e)) o))
    ]

    -- The thread that moved owns nothing that another one does.
    moved_alone : (j t : ℕ) → j ≢ i → owned p' ≡ some t → owned (s.phase_of j) ≢ some t
    moved_alone j t d o q = elim (k.owns t o) [
      | inl c ↦ g.apart i j t (λ e. d (sym e)) c q
      | inr c ↦ absurd (omega (arith, c, owned_lt default s.shared (s.phase_of j) t (g.knows j) q))
    ]

    moved_apart :
        (j l t : ℕ)
        → j ≢ l
        → owned (update s.phase_of i p' j) ≡ some t
        → owned (update s.phase_of i p' l) ≢ some t
    moved_apart j l t d o q = elim (update_cases s.phase_of i p' j) [
      | inl (e, u) ↦ elim (update_cases s.phase_of i p' l) [
        | inl (e', u') ↦ d (e ∙ sym e')
        | inr (d', u') ↦ moved_alone l t d' (ap owned (sym u) ∙ o) (ap owned (sym u') ∙ q)
      ]
      | inr (c, u) ↦ elim (update_cases s.phase_of i p' l) [
        | inl (e', u') ↦ moved_alone j t c (ap owned (sym u') ∙ q) (ap owned (sym u) ∙ o)
        | inr (d', u') ↦ g.apart j l t d (ap owned (sym u) ∙ o) (ap owned (sym u') ∙ q)
      ]
    ]

    moved-IsGood : IsGood default n (moved s i (p', m'))
    moved-IsGood = record { sound = k.sound; knows = moved-Knows; apart = moved_apart }

  step-IsGood :
      (n : ℕ) (s : System T) (x : ℕ × Action T)
      → IsGood default (suc n) s
      → IsGood default n (step default s x)
  unfolding step
  step-IsGood n s (i, a) g =
      moved-IsGood n s i _ _ g (move-Keeps default n a (s.phase_of i) s.shared g.sound (g.knows i))

  run-IsGood :
      (s : System T) (xs : List (ℕ × Action T))
      → IsGood default (length xs) s
      → IsGood default 0 (run default s xs)
  unfolding run
  run-IsGood s [] g = g
  run-IsGood s (x ∷ xs) g = run-IsGood (step default s x) xs (step-IsGood (length xs) s x g)

  pub fresh-IsGood :
      (size n : ℕ) → size + 2 < 2 ^ 64 → 1 + n < 2 ^ 64 → IsGood default n (fresh default size)
  unfolding fresh init
  fresh-IsGood size n b h = record {
    sound = record {
      room = omega (arith, b);
      full = length-replicate (add_u64 size 2) default;
      counted = omega arith;
      ordered = (omega arith, omega arith);
      bounded = omega (arith, b);
      small = omega (arith, h);
      filled = λ p l u. absurd (omega arith);
      handed = refl;
    };
    knows = λ i. tt;
    apart = λ i j t d o. absurd cc;
  }

  pool_size-move :
      (a : Action T) (p : Phase T) (m : Shared T) → (move default a p m).1.pool_size ≡ m.pool_size
  unfolding move
  pool_size-move (enqueue x) idle m = refl
  pool_size-move dequeue idle m = refl
  pool_size-move (go f) (tail_loaded t x) m = ground arith
  pool_size-move (go f) (tail_checked t x) m = ground arith
  pool_size-move (go f) (claimed t x) m = refl
  pool_size-move (go f) (stored t) m = ground arith
  pool_size-move (go f) (head_loaded h) m = ground arith
  pool_size-move (go f) (head_checked h) m = refl
  pool_size-move (go f) (copied h v) m = ground arith
  pool_size-move _ p m = refl

  pool_size-run_from :
      (s : System T) (xs : List (ℕ × Action T))
      → (run default s xs).shared.pool_size ≡ s.shared.pool_size
  unfolding run step
  pool_size-run_from s [] = refl
  pool_size-run_from s ((i, a) ∷ xs) =
      pool_size-run_from (step default s (i, a)) xs ∙ pool_size-move a (s.phase_of i) s.shared

  pool_size-run :
      (size : ℕ) (xs : List (ℕ × Action T))
      → (run default (fresh default size) xs).shared.pool_size ≡ add_u64 size 2
  unfolding fresh init
  pool_size-run size xs = pool_size-run_from (fresh default size) xs

  -- For a queue of fewer than 2^64 - 2 elements and any interleaving of any number of threads, in fewer than 2^64 - 1 steps: the elements that were
  -- handed out are the first that places were claimed for, each once and in the order of the
  -- claims, and never do more than `size` elements wait.
  pub run_order :
      (size : ℕ) (xs : List (ℕ × Action T))
      → size + 2 < 2 ^ 64
      → 1 + length xs < 2 ^ 64
      → let m = (run default (fresh default size) xs).shared in
        (m.out ≡ take m.head m.log) × (m.head ≤ length m.log) × (length m.log ≤ m.head + size)
  run_order size xs b h =
      let g = (run-IsGood (fresh default size) xs (fresh-IsGood size (length xs) b h)).sound in
      (
        g.handed,
        omega (arith, g.ordered, g.counted),
        omega (arith, g.bounded, g.counted, pool_size-run size xs, b),
      )
