-- ===== src/Scheduler/Classic/Choice.antt =====
-- Which routine is next.
use cyber_rt_standalone_r.Prelude.{
  ℕ, zero, suc, ◌+◌, ◌≡◌, ◌≤◌, ◌<◌, refl, ap, ◌∙◌, List, [], ◌∷◌, Bool, true, false, ◌&&◌, not, ltb,
  inl, inr, Bool-cases, Option, some, none, if◌then◌else◌, get_or, set, length, get_or-set_ne,
  length-set, arith,
}
use cyber_rt_standalone_r.Scheduler.Routine.{
  Routine, RoutineState, ready, finished, sleep, io_wait, data_wait, is_ready,
}
use cyber_rt_standalone_r.Scheduler.Classic.{
  Entry, max_prio, update_state, settle_entry, try_locked, collected, scan, lower, scan_below,
  next_routine,
}

abbrev pub or_else : Option ℕ → Option ℕ → Option ℕ
or_else (some n) o = some n
or_else none o = o

abbrev pub count : Option ℕ → ℕ
count (some n) = 1
count none = 0

-- Whether a processor may run the entry now: nobody holds it, and it is READY, or sleeps and its wake time
-- has passed, or waits and has been notified.
abbrev pub may_run : ℕ → ℕ → RoutineState → Bool → Bool
may_run now wake_time ready updated = true
may_run now wake_time sleep updated = ltb wake_time now
may_run now wake_time finished updated = false
may_run now wake_time io_wait updated = not updated
may_run now wake_time data_wait updated = not updated

module _ {T : Type 0} where
  abbrev pub runnable : ℕ → Entry T → Bool
  runnable now e = not e.routine.locked && may_run now e.wake_time e.routine.state e.routine.updated

  may_run_by :
      (now wake_time : ℕ) (state : RoutineState) (l u f n q : Bool) (xs ys : List T) (id k : ℕ)
      → is_ready
          (update_state now (record {
            id = id;
            wake_time = wake_time;
            routine = record {
              state = state;
              locked = l;
              updated = u;
              force_stop = f;
              inside = n;
              queued = q;
              queue_size = k;
              inbox = xs;
              fetched = ys;
            };
          })).state
        ≡ may_run now wake_time state u
  unfolding update_state
  may_run_by now t ready l true f n q xs ys id k = refl
  may_run_by now t ready l false f n q xs ys id k = refl
  may_run_by now t finished l true f n q xs ys id k = refl
  may_run_by now t finished l false f n q xs ys id k = refl
  may_run_by now t sleep l u f n q xs ys id k = elim (Bool-cases (ltb t now)) [
    | inl e ↦ rw e refl
    | inr e ↦ rw e (ground arith)
  ]
  may_run_by now t io_wait l true f n q xs ys id k = refl
  may_run_by now t io_wait l false f n q xs ys id k = refl
  may_run_by now t data_wait l true f n q xs ys id k = refl
  may_run_by now t data_wait l false f n q xs ys id k = refl

  may_run_lem :
      (now : ℕ) (e : Entry T)
      → is_ready (update_state now e).state
        ≡ may_run now e.wake_time e.routine.state e.routine.updated
  may_run_lem now e =
      let r = e.routine in
      may_run_by now e.wake_time r.state r.locked r.updated r.force_stop r.inside r.queued r.inbox
        r.fetched e.id r.queue_size

  abbrev pub first_runnable : ℕ → List (Entry T) → Option ℕ
  first_runnable now [] = none
  first_runnable now (e ∷ es) = if runnable now e then some e.id else first_runnable now es

  -- The first runnable entry of the highest priority below `i` that has one.
  abbrev pub highest : ℕ → ℕ → List (List (Entry T)) → Option ℕ
  highest zero now rq = none
  highest (suc i) now rq = or_else (first_runnable now (get_or rq i [])) (highest i now rq)

  -- How many routines processors hold.
  abbrev pub locked_in : List (Entry T) → ℕ
  locked_in [] = 0
  locked_in (e ∷ es) = (if e.routine.locked then 1 else 0) + locked_in es

  abbrev pub locked_all : List (List (Entry T)) → ℕ
  locked_all [] = 0
  locked_all (q ∷ qs) = locked_in q + locked_all qs

  -- A loop over `es` has answered `o` and left `es'`: it holds one routine more if it answered one.
  abbrev Holds : List (Entry T) → Option ℕ × List (Entry T) → Type 0
  Holds es (o, es') = locked_in es' ≡ count o + locked_in es

  settled_lem :
      (b : Bool) (e : Entry T) (r : Routine T) (es : List (Entry T))
      (rest : Option ℕ × List (Entry T))
      → e.routine.locked ≡ false
      → Holds es rest
      → ((collected (settle_entry b e r) es rest).0 ≡ (if b then some e.id else rest.0))
        × Holds (e ∷ es) (collected (settle_entry b e r) es rest)
  settled_lem true e r es rest f h = (refl, rw f (omega arith))
  settled_lem false e r es (o, es') f h = (refl, rw f (omega (arith, h)))

  collected_lem :
      (l : Bool) (now : ℕ) (e : Entry T) (es : List (Entry T)) (rest : Option ℕ × List (Entry T))
      → e.routine.locked ≡ l
      → Holds es rest
      → ((collected (try_locked l now e) es rest).0
          ≡ (if not l && is_ready (update_state now e).state then some e.id else rest.0))
        × Holds (e ∷ es) (collected (try_locked l now e) es rest)
  collected_lem true now e es (o, es') f h = (refl, rw f (omega (arith, h)))
  collected_lem false now e es rest f h =
      settled_lem (is_ready (update_state now e).state) e (update_state now e) es rest f h

  scan_lem :
      (now : ℕ) (es : List (Entry T))
      → ((scan now es).0 ≡ first_runnable now es) × Holds es (scan now es)
  unfolding scan
  scan_lem now [] = (refl, refl)
  scan_lem now (e ∷ es) =
      let (p, h) = scan_lem now es in
      let (q, k) = collected_lem e.routine.locked now e es (scan now es) refl h in
      let m : (not e.routine.locked && is_ready (update_state now e).state) ≡ runnable now e =
        ap (λ b. not e.routine.locked && b) (may_run_lem now e) in
      (
        q
            ∙ ((λ i. if m i then some e.id else (scan now es).0)
                ∙ ap (λ o. if runnable now e then some e.id else o) p),
        k,
      )

  locked_all-set :
      (rq : List (List (Entry T))) (i : ℕ) (q : List (Entry T))
      → i < length rq
      → locked_all (set rq i q) + locked_in (get_or rq i []) ≡ locked_all rq + locked_in q
  locked_all-set [] i q h = absurd (omega arith)
  locked_all-set (p ∷ rq) zero q h = omega arith
  locked_all-set (p ∷ rq) (suc i) q h = omega (arith, locked_all-set rq i q (omega arith))

  highest-set :
      (n i now : ℕ) (rq : List (List (Entry T))) (q : List (Entry T))
      → n ≤ i
      → highest n now (set rq i q) ≡ highest n now rq
  highest-set zero i now rq q h = refl
  highest-set (suc n) i now rq q h =
      rw (get_or-set_ne rq i n q [] (λ e. absurd (omega (arith, e, h)))) (
        ap (or_else (first_runnable now (get_or rq n []))) (highest-set n i now rq q (omega arith)))

  -- What a loop over priorities below `n` answers.
  abbrev Chooses : ℕ → ℕ → List (List (Entry T)) → Option ℕ × List (List (Entry T)) → Type 0
  Chooses n now rq (o, rq') = (o ≡ highest n now rq) × (locked_all rq' ≡ count o + locked_all rq)

  lower-Chooses :
      (o : Option ℕ) (n now : ℕ) (rq : List (List (Entry T))) (q : List (Entry T))
      (rest : Option ℕ × List (List (Entry T)))
      → n < length rq
      → o ≡ first_runnable now (get_or rq n [])
      → Holds (get_or rq n []) (o, q)
      → Chooses n now (set rq n q) rest
      → Chooses (suc n) now rq (lower o (set rq n q) rest)
  lower-Chooses (some id) n now rq q rest l p h c =
      (ap (λ u. or_else u (highest n now rq)) p, omega (arith, h, locked_all-set rq n q l))
  lower-Chooses none n now rq q (o, rq') l p h c = (
    c.0 ∙ (highest-set n n now rq q (omega arith) ∙ ap (λ u. or_else u (highest n now rq)) p),
    omega (arith, h, c.1, locked_all-set rq n q l),
  )

  scan_below-Chooses :
      (n now : ℕ) (rq : List (List (Entry T)))
      → n ≤ length rq
      → Chooses n now rq (scan_below n now rq)
  unfolding scan_below
  scan_below-Chooses zero now rq h = (refl, omega arith)
  scan_below-Chooses (suc n) now rq h =
      let (p, k) = scan_lem now (get_or rq n []) in
      let q = (scan now (get_or rq n [])).1 in
      lower-Chooses (scan now (get_or rq n [])).0 n now rq q _ (omega arith) p k
        (scan_below-Chooses n now (set rq n q) (omega (arith, h, length-set rq n q)))

  -- NextRoutine on a group's 20 queues returns the first routine of the highest priority that has one
  -- which no processor holds and which is READY or becomes so, and none if there is none; after it as
  -- many routines are locked as before, and one more if it returned one. A stopped context returns none.
  pub next_routine-highest :
      (stop : Bool) (now : ℕ) (rq : List (List (Entry T)))
      → length rq ≡ 20
      → let (o, rq') = next_routine stop now rq in
        (o ≡ (if stop then none else highest 20 now rq))
        × (locked_all rq' ≡ count o + locked_all rq)
  unfolding next_routine
  next_routine-highest true now rq h = (refl, omega arith)
  next_routine-highest false now rq h = scan_below-Chooses max_prio now rq (omega (arith, h))
