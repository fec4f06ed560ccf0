-- ===== src/Scheduler/Routine/Turn.antt =====
-- A turn of a routine for which a message has come.
use cyber_rt_standalone_r.Prelude.{
  ℕ, ◌≡◌, ◌≢◌, ◌≤◌, ◌<◌, ltb, length, subst, Bool-cases, ◌⊎◌, inl, inr, refl, sym, ap, ◌∙◌, List,
  [], ◌∷◌, ◌++◌, Bool, true, false, ◌||◌, not, arith, update, update_cases,
}
use cyber_rt_standalone_r.Scheduler.Routine.{
  RoutineState, ready, io_wait, data_wait, waits, is_ready, Routine, Stage, out, Event, acquire, go,
  move, is_nil, newest, fetch_from, Team, step, run, started,
}
use cyber_rt_standalone_r.Scheduler.Routine.Steps.{holds}
use cyber_rt_standalone_r.Scheduler.Routine.Wakeup.{is_empty, serves, calm, settled, run-IsMinded}
use cyber_rt_standalone_r.Scheduler.Routine.Free.{is_free, run-IsCovered}

module _ {T : Type 0} where
  abbrev pub moves : List (Event T) → Stage T × Routine T → Stage T × Routine T
  moves [] s = s
  moves (a ∷ xs) s = moves xs (move a s.0 s.1)

  abbrev by_thread : ℕ → List (Event T) → List (ℕ × Event T)
  by_thread i [] = []
  by_thread i (a ∷ xs) = (i, a) ∷ by_thread i xs

  -- A processor that looks at the routine and takes the steps that follow, before the wake time.
  abbrev steps : List (Event T)
  steps =
      acquire
      ∷ go false
      ∷ go false
      ∷ go false
      ∷ go false
      ∷ go false
      ∷ go false
      ∷ go false
      ∷ go false
      ∷ go false
      ∷ []

  abbrev pub turn : ℕ → List (ℕ × Event T)
  turn i = by_thread i steps

  update_self : (f : ℕ → Stage T) (i : ℕ) (p : Stage T) → update f i p i ≡ p
  update_self f i p = elim (update_cases f i p i) [ inl (e, u) ↦ u | inr (d, u) ↦ absurd (d refl) ]

  run-by_thread :
      (i : ℕ) (xs : List (Event T)) (s : Team T)
      → ((run s (by_thread i xs)).stage_of i, (run s (by_thread i xs)).routine)
        ≡ moves xs (s.stage_of i, s.routine)
  unfolding run step
  run-by_thread i [] s = refl
  run-by_thread i (a ∷ xs) s =
      run-by_thread i xs (step s (i, a))
      ∙ ap (λ p. moves xs (p, (move a (s.stage_of i) s.routine).1))
          (update_self s.stage_of i (move a (s.stage_of i) s.routine).0)

  abbrev made : RoutineState → Bool → Bool → Bool → Bool → Bool → ℕ → List T → List T → Routine T
  made st l u f n q k xs ys = record {
    state = st;
    locked = l;
    updated = u;
    force_stop = f;
    inside = n;
    queued = q;
    queue_size = k;
    inbox = xs;
    fetched = ys;
  }

  -- What `Fetch` gives, and what is left.
  abbrev taken : ℕ → T → List T → List T → T × List T
  taken k x xs ys = fetch_from (is_nil ys || ltb k (length (x ∷ xs))) x xs

  turn_made :
      (st : RoutineState) (l u f n q : Bool) (k : ℕ) (x : T) (xs ys : List T)
      → (l || (f || (n || not q))) ≡ false
      → (is_ready st || not u) ≡ true
      → (is_ready st || waits st) ≡ true
      → moves steps (out, made st l u f n q k (x ∷ xs) ys) ≡ (
        out,
        made ready false true false false true k
            (taken k x xs ys).1
            (ys ++ (taken k x xs ys).0 ∷ []),
      )
  unfolding move
  turn_made ready false true false false true k x xs ys e c h = refl
  turn_made ready false false false false true k x xs ys e c h = refl
  turn_made io_wait false false false false true k x xs ys e c h = refl
  turn_made data_wait false false false false true k x xs ys e c h = refl
  turn_made _ l u f n q k x xs ys e c h = absurd (ground (arith, e, c, h))

  -- A message that `Fetch` may give of those that have come since the last one, and what is then left: the
  -- newest, with nothing left, if it is the first one fetched or more have come than the buffer holds,
  -- and the oldest otherwise.
  abbrev pub Owed : ℕ → List T → List T → T → List T → Type 0
  Owed queue_size fetched box x rest =
      (((fetched ≡ []) ⊎ (queue_size < length box))
        × ((before : List T) × ((box ≡ before ++ x ∷ []) × (rest ≡ []))))
      ⊎ ((fetched ≢ []) × (length box ≤ queue_size) × (box ≡ x ∷ rest))

  newest_last : (x : T) (xs : List T) → (before : List T) × (x ∷ xs ≡ before ++ newest x xs ∷ [])
  newest_last x [] = ([], refl)
  newest_last x (y ∷ ys) = let (before, e) = newest_last y ys in (x ∷ before, ap (◌∷◌ x) e)

  taken-Owed :
      (k : ℕ) (x : T) (xs ys : List T) → Owed k ys (x ∷ xs) (taken k x xs ys).0 (taken k x xs ys).1
  taken-Owed k x xs [] = let (before, e) = newest_last x xs in inl (inl refl, (before, (e, refl)))
  taken-Owed k x xs (y ∷ ys) = elim (Bool-cases (ltb k (length (x ∷ xs)))) [
    | inl c ↦
        let (before, e) = newest_last x xs in
        rw c (inl (inr (ground (arith, c)), (before, (e, refl))))
    | inr c ↦ rw c (inr (λ q. absurd cc, ground (arith, c), refl))
  ]

  -- Nothing is going on: no thread is in the middle of a call, and the routine is not suspended in its
  -- callback, forced to stop or out of the queue.
  pub record IsQuiet (s : Team T) : Type 0 where
    pub rest : (j : ℕ) → s.stage_of j ≡ out
    pub unstopped : s.routine.force_stop ≡ false
    pub between : s.routine.inside ≡ false
    pub found : s.routine.queued ≡ true

  helpless :
      (f : Stage T → Bool) (s : Team T) (i : ℕ)
      → f out ≡ false
      → s.stage_of i ≡ out
      → f (s.stage_of i) ≡ true
      → ⊥
  helpless f s i h e t = absurd (ground (arith, h, t, ap f e))

  -- The lock is free in a quiet state.
  quiet_unlocked :
      (s : Team T)
      → IsQuiet s
      → (is_free s.routine ≡ true) ⊎ ((i : ℕ) × (holds (s.stage_of i) ≡ true))
      → s.routine.locked ≡ false
  quiet_unlocked s q (inl c) = ground (arith, c)
  quiet_unlocked s q (inr (i, h)) = absurd (helpless holds s i refl (q.rest i) h)

  quiet_calm :
      (s : Team T)
      → IsQuiet s
      → (calm s.routine ≡ true) ⊎ ((i : ℕ) × (serves (s.stage_of i) ≡ true))
      → calm s.routine ≡ true
  quiet_calm s q (inl c) = c
  quiet_calm s q (inr (i, h)) = absurd (helpless serves s i refl (q.rest i) h)

  turn_from :
      (s : Team T) (i : ℕ) (box : List T)
      → IsQuiet s
      → s.routine.inbox ≡ box
      → is_empty box ≡ false
      → s.routine.locked ≡ false
      → calm s.routine ≡ true
      → settled s.routine ≡ true
      → (x : T) × (Owed s.routine.queue_size s.routine.fetched box x (run s (turn i)).routine.inbox
          × ((run s (turn i)).routine.fetched ≡ s.routine.fetched ++ x ∷ [])
          × ((run s (turn i)).stage_of i ≡ out))
  turn_from s i [] q b e l c h = absurd (ground (arith, e))
  turn_from s i (x ∷ xs) q b e l c h =
      let r = s.routine in
      let k = r.queue_size in
      let n : is_empty r.inbox ≡ false = ap is_empty b in
      let m =
        turn_made r.state r.locked r.updated r.force_stop r.inside r.queued k x xs r.fetched
          (ground (arith, l, q.unstopped, q.between, q.found))
          (ground (arith, c, n, q.unstopped, q.between))
          (ground (arith, h, q.unstopped, q.between)) in
      let o = ap (λ w. moves steps (w, r)) (q.rest i) in
      let p =
        ap
          (λ w.
            moves steps
              (out, made r.state r.locked r.updated r.force_stop r.inside r.queued k w r.fetched))
          b in
      let z = run-by_thread i steps s ∙ (o ∙ (p ∙ m)) in
      (
        (taken k x xs r.fetched).0,
        (
          subst (λ w. Owed k r.fetched (x ∷ xs) (taken k x xs r.fetched).0 w)
              (sym (ap (λ w. w.1.inbox) z)) (taken-Owed k x xs r.fetched),
          ap (λ w. w.1.fetched) z,
          ap (λ w. w.0) z,
        ),
      )

  -- A message that has been sent wakes the routine: after any interleaving of processors and senders that
  -- leaves messages unfetched and no thread in the middle of a call, where the routine is neither suspended
  -- in its callback nor being removed, the next processor that looks at the routine, before its wake time,
  -- gives its callback the message that Fetch owes it: the newest, the older ones being dropped, if none
  -- was fetched before or more have come than the buffer holds, and the oldest otherwise.
  pub run_fetches :
      (size : ℕ) (xs : List (ℕ × Event T)) (i : ℕ)
      → IsQuiet (run (started size) xs)
      → is_empty (run (started size) xs).routine.inbox ≡ false
      → let s = run (started size) xs in
        let s' = run s (turn i) in
        (x : T) × (Owed s.routine.queue_size s.routine.fetched s.routine.inbox x s'.routine.inbox
          × (s'.routine.fetched ≡ s.routine.fetched ++ x ∷ [])
          × (s'.stage_of i ≡ out))
  run_fetches size xs i q e =
      let s = run (started size) xs in
      let m = run-IsMinded (started size) xs (refl, inl refl) in
      turn_from s i s.routine.inbox q refl e
        (quiet_unlocked s q (run-IsCovered (started size) xs (inl refl))) (quiet_calm s q m.1) m.0
