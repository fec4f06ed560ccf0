-- ===== src/Blocker/Published.antt =====
-- What the published queue of a blocker holds.
use cyber_rt_standalone_r.Prelude.{
  ℕ, zero, suc, ◌+◌, ◌≡◌, ◌≤◌, ◌<◌, refl, sym, inl, inr, ap, ◌∙◌, List, [], ◌∷◌, ◌++◌, Bool, true,
  false, some, length, ltb, ◌==◌, arith, Bool-cases, take, length-take_le, take_all,
}
use cyber_rt_standalone_r.Blocker.{
  Blocker, pop_back, shrink, pushed, enqueue, publish, observe, get_latest_observed_ptr, get_front,
}

length-pop_back : {A : Type 0} (x : A) (xs : List A) → length (pop_back (x ∷ xs)) ≡ length xs
length-pop_back x [] = refl
length-pop_back x (y ∷ ys) = ap suc (length-pop_back y ys)

take-pop_back :
    {A : Type 0} (n : ℕ) (xs : List A) → n < length xs → take n (pop_back xs) ≡ take n xs
take-pop_back n [] h = absurd (omega arith)
take-pop_back zero (x ∷ xs) h = refl
take-pop_back (suc n) (x ∷ []) h = absurd (omega arith)
take-pop_back (suc n) (x ∷ y ∷ ys) h = ap (◌∷◌ x) (take-pop_back n (y ∷ ys) (omega arith))

-- With enough rounds the loop leaves the newest messages, as many as the capacity.
shrink_lem :
    {A : Type 0} (fuel capacity : ℕ) (queue : List A)
    → length queue ≤ fuel + capacity
    → shrink fuel capacity queue ≡ take capacity queue
shrink_lem zero capacity queue h = sym (take_all capacity queue (omega arith))
shrink_lem {A} (suc fuel) capacity [] h = ground (arith, take_all {A = A} capacity [] (omega arith))
shrink_lem (suc fuel) capacity (x ∷ xs) h = elim (Bool-cases (ltb capacity (length (x ∷ xs)))) [
  | inl e ↦ rw e (
      shrink_lem fuel capacity (pop_back (x ∷ xs)) (omega (arith, length-pop_back x xs, h))
      ∙ take-pop_back capacity (x ∷ xs) (ground (arith, e)))
  | inr e ↦ rw e (sym (take_all capacity (x ∷ xs) (ground (arith, e))))
]

-- The messages published one after the other.
abbrev pub publish_all : {T C : Type 0} → List T → Blocker T C → Blocker T C
publish_all [] b = b
publish_all (m ∷ ms) b = publish_all ms (publish m b).1

-- The newest first, in front of what was there.
abbrev pub newest_first : {T : Type 0} → List T → List T → List T
newest_first [] old = old
newest_first (m ∷ ms) old = newest_first ms (m ∷ old)

take-take : {A : Type 0} (n : ℕ) (xs : List A) → take n (take (suc n) xs) ≡ take n xs
take-take zero xs = refl
take-take (suc n) [] = refl
take-take (suc n) (x ∷ xs) = ap (◌∷◌ x) (take-take n xs)

pushed_lem :
    {A : Type 0} (refuses : Bool) (capacity : ℕ) (m : A) (queue : List A)
    → refuses ≡ (capacity == 0)
    → length queue ≤ capacity
    → pushed refuses capacity m queue ≡ take capacity (m ∷ queue)
pushed_lem true zero m [] e h = refl
pushed_lem true zero m (x ∷ queue) e h = absurd (omega arith)
pushed_lem true (suc capacity) m queue e h = absurd (ground (arith, e))
pushed_lem false capacity m queue e h =
    shrink_lem (suc (length queue)) capacity (m ∷ queue) (omega arith)

take_pred :
    {A : Type 0} (n : ℕ) (xs ys : List A)
    → take (suc n) xs ≡ take (suc n) ys
    → take n xs ≡ take n ys
take_pred n xs ys e = sym (take-take n xs) ∙ ap (take n) e ∙ take-take n ys

take_cons :
    {A : Type 0} (n : ℕ) (x : A) (xs ys : List A)
    → take n xs ≡ take n ys
    → take n (x ∷ xs) ≡ take n (x ∷ ys)
take_cons zero x xs ys e = refl
take_cons (suc n) x xs ys e = ap (◌∷◌ x) (take_pred n xs ys e)

-- What is cut off early would be cut off in the end.
take-newest_first :
    {A : Type 0} (n : ℕ) (ms xs ys : List A)
    → take n xs ≡ take n ys
    → take n (newest_first ms xs) ≡ take n (newest_first ms ys)
take-newest_first n [] xs ys e = e
take-newest_first n (m ∷ ms) xs ys e =
    take-newest_first n ms (m ∷ xs) (m ∷ ys) (take_cons n m xs ys e)

take_idem : {A : Type 0} (n : ℕ) (xs : List A) → take n (take n xs) ≡ take n xs
take_idem n xs = take_all n (take n xs) (length-take_le n xs)

module _ {T C : Type 0} where
  -- After a list of messages a blocker that was within its capacity still is, its published queue
  -- holds the newest of the old and the new messages, as many as the capacity, and the observed queue
  -- is as before.
  pub published-publish_all :
      (ms : List T) (b : Blocker T C)
      → length b.published_msg_queue ≤ b.capacity
      → ((publish_all ms b).published_msg_queue
          ≡ take b.capacity (newest_first ms b.published_msg_queue))
        × (length (publish_all ms b).published_msg_queue ≤ (publish_all ms b).capacity)
        × ((publish_all ms b).observed_msg_queue ≡ b.observed_msg_queue)
        × ((publish_all ms b).capacity ≡ b.capacity)
  unfolding publish enqueue
  published-publish_all [] b h = (sym (take_all b.capacity b.published_msg_queue h), h, refl, refl)
  published-publish_all (m ∷ ms) b h =
      let q = b.published_msg_queue in
      let b' = (publish m b).1 in
      let p : b'.published_msg_queue ≡ take b.capacity (m ∷ q) =
        pushed_lem (b.capacity == 0) b.capacity m q refl h in
      let l : length b'.published_msg_queue ≤ b.capacity =
        omega (arith, ap length p, length-take_le b.capacity (m ∷ q)) in
      let (e, w, o, c) = published-publish_all ms b' l in
      (
        e
            ∙ take-newest_first b.capacity ms b'.published_msg_queue (m ∷ q)
                (ap (take b.capacity) p ∙ take_idem b.capacity (m ∷ q)),
        w,
        o,
        c,
      )

newest_first-append :
    {T : Type 0} (ms : List T) (m : T) (old : List T)
    → newest_first (ms ++ m ∷ []) old ≡ m ∷ newest_first ms old
newest_first-append [] m old = refl
newest_first-append (x ∷ ms) m old = newest_first-append ms m (x ∷ old)

front_lem :
    {T : Type 0} (n : ℕ) (m : T) (xs q : List T)
    → 0 < n
    → q ≡ take n (m ∷ xs)
    → get_front q ≡ some m
front_lem zero m xs q h e = absurd (omega arith)
front_lem (suc n) m xs q h e = ap get_front e

module _ {T C : Type 0} where
  -- A blocker with room that was within its capacity shows, when it is observed after some messages,
  -- the last of them as the latest observed one, and goes on to while more are published.
  pub get_latest_observed_ptr-observe :
      (ms later : List T) (m : T) (b : Blocker T C)
      → length b.published_msg_queue ≤ b.capacity
      → 0 < b.capacity
      → get_latest_observed_ptr (publish_all later (observe (publish_all (ms ++ m ∷ []) b)))
        ≡ some m
  unfolding get_latest_observed_ptr observe
  get_latest_observed_ptr-observe ms later m b h r =
      let p = published-publish_all (ms ++ m ∷ []) b h in
      let q = published-publish_all later (observe (publish_all (ms ++ m ∷ []) b)) (p.1) in
      ap get_front (q.2)
      ∙ front_lem b.capacity m (newest_first ms b.published_msg_queue) _ r
          (p.0 ∙ ap (take b.capacity) (newest_first-append ms m b.published_msg_queue))
