-- ===== src/Base/Bounded/Fifo.antt =====
-- One thread's calls against a queue that holds `size` elements.
use cyber_rt_standalone_r.Prelude.{
  ℕ, zero, suc, ◌+◌, ◌^◌, ◌≤◌, ◌<◌, ◌≡◌, refl, sym, ap, ◌∙◌, subst, List, [], ◌∷◌, ◌++◌, Bool, true,
  false, ltb, length, drop, drop-length, drop-cons, length-drop, get_or, arith, add_u64,
}
use native.Mathlib.Decide.{dec_lt}
use cyber_rt_standalone_r.Base.Bounded.{
  Shared, Phase, idle, Action, enqueue, dequeue, go, get_index, init, move, fresh,
}
use cyber_rt_standalone_r.Base.Bounded.Invariant.{get_index_lem, IsSound, Knows}
use cyber_rt_standalone_r.Base.Bounded.Order.{move-Keeps, fresh-IsGood}
use cyber_rt_standalone_r.Base.Bounded.Alone.{
  moves, goes, enqueue_full, enqueue_room, dequeue_empty, dequeue_some,
}

-- What waits, the oldest first, and what was handed out.
pub record Fifo (T : Type 0) : Type 0 where
  pub waiting : List T
  pub taken : List T

abbrev pub take_first : {T : Type 0} → List T → List T → Fifo T
take_first [] ys = record { waiting = []; taken = ys }
take_first (x ∷ xs) ys = record { waiting = xs; taken = ys ++ x ∷ [] }

abbrev pub put : {T : Type 0} → Bool → T → Fifo T → Fifo T
put true x q = record { waiting = q.waiting ++ x ∷ []; taken = q.taken }
put false x q = q

-- What a call means: a full queue refuses, an empty one hands out nothing.
abbrev pub serve : {T : Type 0} → ℕ → Action T → Fifo T → Fifo T
serve size (enqueue x) q = put (ltb (length q.waiting) size) x q
serve size dequeue q = take_first q.waiting q.taken
serve size (go f) q = q

abbrev pub serve_all : {T : Type 0} → ℕ → List (Action T) → Fifo T → Fifo T
serve_all size [] q = q
serve_all size (a ∷ xs) q = serve_all size xs (serve size a q)

-- Calls of one thread after each other, each with the steps it takes when no exchange fails.
abbrev pub calls : {T : Type 0} → T → List (Action T) → Phase T × Shared T → Phase T × Shared T
calls d [] s = s
calls d (a ∷ xs) s = calls d xs (moves d (a ∷ goes) s)

abbrev pub view : {T : Type 0} → Shared T → Fifo T
view m = record { waiting = drop m.head m.log; taken = m.out }

drop-append :
    {A : Type 0} (n : ℕ) (xs ys : List A) → n ≤ length xs → drop n (xs ++ ys) ≡ drop n xs ++ ys
drop-append zero xs ys h = refl
drop-append (suc n) [] ys h = absurd (omega arith)
drop-append (suc n) (x ∷ xs) ys h = drop-append n xs ys (omega arith)

module _ {T : Type 0} (d : T) where
  with_small : (n k : ℕ) (m : Shared T) → IsSound d n m → m.tail + k < 2 ^ 64 → IsSound d k m
  with_small n k m s h = record {
    room = s.room;
    full = s.full;
    counted = s.counted;
    ordered = s.ordered;
    bounded = s.bounded;
    small = h;
    filled = s.filled;
    handed = s.handed;
  }

  moves-IsSound :
      (xs : List (Action T)) (p : Phase T) (m : Shared T)
      → IsSound d (length xs) m
      → Knows d m p
      → IsSound d 0 (moves d xs (p, m)).1
  moves-IsSound [] p m s k = s
  moves-IsSound (a ∷ xs) p m s k =
      let h = move-Keeps d (length xs) a p m s k in moves-IsSound xs _ _ h.sound h.knows

  -- A queue between two calls of the only thread.
  record IsReady (size n : ℕ) (m : Shared T) : Type 0 where
    sound : IsSound d 0 m
    even : m.commit ≡ m.tail
    sized : m.pool_size ≡ size + 2
    small : m.tail + 5 + n < 2 ^ 64

  -- What a call leads to.
  abbrev Serves : ℕ → ℕ → Action T → Shared T → Shared T → Type 0
  Serves size n a m m' =
      (moves d (a ∷ goes) (idle, m) ≡ (idle, m'))
      × (m'.commit ≡ m'.tail)
      × (m'.pool_size ≡ m.pool_size)
      × (m'.tail ≤ m.tail + 1)
      × (view m' ≡ serve size a (view m))

  abbrev made : List T → List T → Fifo T
  made xs ys = record { waiting = xs; taken = ys }

  accepted :
      (size : ℕ) (x : T) (m : Shared T)
      → IsSound d 4 m
      → m.pool_size ≡ size + 2
      → m.tail + 1 < m.head + m.pool_size
      → made (drop m.head (m.log ++ x ∷ [])) m.out ≡ serve size (enqueue x) (view m)
  accepted size x m s z l =
      let e : ltb (length (drop m.head m.log)) size ≡ true =
        ground (arith, z, l, s.counted, s.ordered, length-drop m.head m.log) in
      rw (e, drop-append m.head m.log (x ∷ []) (omega (arith, s.counted, s.ordered))) refl

  refused :
      (size : ℕ) (x : T) (m : Shared T)
      → IsSound d 4 m
      → m.pool_size ≡ size + 2
      → m.tail + 1 ≡ m.head + m.pool_size
      → view m ≡ serve size (enqueue x) (view m)
  refused size x m s z l =
      let e : ltb (length (drop m.head m.log)) size ≡ false =
        ground (arith, z, l, s.counted, length-drop m.head m.log) in
      rw e refl

  handed_out :
      (m : Shared T)
      → IsSound d 4 m
      → m.head + 1 < m.commit
      → made
          (drop (add_u64 m.head 1) m.log)
          (m.out ++ get_or m.pool (get_index m.pool_size (add_u64 m.head 1)) d ∷ [])
        ≡ take_first (drop m.head m.log) m.out
  handed_out m s l =
      let a : add_u64 m.head 1 ≡ suc m.head = omega (arith, s.small, s.ordered) in
      let v : get_or m.pool (get_index m.pool_size (suc m.head)) d ≡ get_or m.log m.head d =
        ap (λ j. get_or m.pool j d) (get_index_lem m.pool_size (suc m.head))
        ∙ (s.filled (suc m.head) (omega arith) (omega (arith, l))
            ∙ ap (λ j. get_or m.log j d) (omega arith)) in
      rw (a, v, drop-cons m.log m.head d (omega (arith, s.ordered, s.counted, l))) refl

  nothing :
      (m : Shared T)
      → IsSound d 4 m
      → m.commit ≡ m.tail
      → m.commit ≡ m.head + 1
      → view m ≡ take_first (drop m.head m.log) m.out
  nothing m s e l = rw (drop-length m.log m.head (omega (arith, s.counted))) refl

  call-Serves :
      (size n : ℕ) (a : Action T) (m : Shared T)
      → IsReady size (suc n) m
      → (m' : Shared T) × (Serves size n a m m')
  unfolding move
  call-Serves size n (enqueue x) m r =
      let s = with_small 0 4 m r.sound (omega (arith, r.small)) in
      elim (dec_lt (m.tail + 1) (m.head + m.pool_size)) [
        | yes l ↦ (
          _,
          (
            enqueue_room d m s x l r.even,
            refl,
            refl,
            omega (arith, r.small),
            accepted size x m s r.sized l,
          ),
        )
        | no l ↦ (
          m,
          (
            enqueue_full d m s x (omega (arith, l, s.bounded)),
            r.even,
            refl,
            omega arith,
            refused size x m s r.sized (omega (arith, l, s.bounded)),
          ),
        )
      ]
  call-Serves size n dequeue m r =
      let s = with_small 0 4 m r.sound (omega (arith, r.small)) in
      elim (dec_lt (m.head + 1) m.commit) [
        | yes l ↦ (_, (dequeue_some d m s l, r.even, refl, omega arith, handed_out m s l))
        | no l ↦ (
          m,
          (
            dequeue_empty d m s (omega (arith, l, s.ordered)),
            r.even,
            refl,
            omega arith,
            nothing m s r.even (omega (arith, l, s.ordered)),
          ),
        )
      ]
  call-Serves size n (go f) m r = (m, (refl, r.even, refl, omega arith, refl))

  calls_from :
      (size : ℕ) (xs : List (Action T)) (m : Shared T)
      → IsReady size (length xs) m
      → ((calls d xs (idle, m)).0 ≡ idle)
        × (view (calls d xs (idle, m)).1 ≡ serve_all size xs (view m))
  calls_from size [] m r = (refl, refl)
  calls_from size (a ∷ xs) m r =
      let (m', (e, c, z, t, v)) = call-Serves size (length xs) a m r in
      let s =
        moves-IsSound (a ∷ goes) idle m (with_small 0 5 m r.sound (omega (arith, r.small))) tt in
      let (p, q) = calls_from size xs m' (record {
        sound = subst (λ u. IsSound d 0 u.1) e s;
        even = c;
        sized = z ∙ r.sized;
        small = omega (arith, r.small, t);
      }) in
      subst
        (λ u.
          ((calls d xs u).0 ≡ idle)
          × (view (calls d xs u).1 ≡ serve_all size xs (serve size a (view m))))
        (sym e) (p, q ∙ ap (serve_all size xs) v)

  -- For one thread, a size below 2^64 - 2 and fewer than 2^64 - 6 calls, the ring is a queue of at most
  -- `size` elements: a
  -- call of `Enqueue` appends its element exactly if fewer than `size` wait, a call of `Dequeue`
  -- hands out the oldest exactly if one waits, and every call returns.
  pub calls_Fifo :
      (size : ℕ) (xs : List (Action T))
      → size + 2 < 2 ^ 64
      → 6 + length xs < 2 ^ 64
      → ((calls d xs (idle, init d size)).0 ≡ idle)
        × (view (calls d xs (idle, init d size)).1
            ≡ serve_all size xs (record { waiting = []; taken = [] }))
  unfolding init fresh
  calls_Fifo size xs b h = calls_from size xs (init d size) (record {
    sound = (fresh-IsGood d size 0 b (omega arith)).sound;
    even = refl;
    sized = omega (arith, b);
    small = omega (arith, h);
  })
