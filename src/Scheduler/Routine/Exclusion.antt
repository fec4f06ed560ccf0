-- ===== src/Scheduler/Routine/Exclusion.antt =====
-- At most one thread holds a routine, and a routine that was removed does not run.
use cyber_rt_standalone_r.Prelude.{
  ℕ, ◌≡◌, ◌≢◌, inl, inr, sym, ap, ◌∙◌, subst, List, [], ◌∷◌, Bool, true, false, arith, Bool-cases,
  update_cases,
}
use cyber_rt_standalone_r.Scheduler.Routine.{
  ready, Routine, advanced, Stage, out, resuming, releasing, notifying, clearing, stopping, erasing,
  Event, Team, step, run, started,
}
use cyber_rt_standalone_r.Scheduler.Routine.Steps.{
  holds, IsHeld, Fits, holds-locked, idle-Fits, same-Fits, Keeps, move-Keeps,
}

-- Whether a processor is between Acquire and the end of the routine's turn.
abbrev pub runs : {T : Type 0} → Stage T → Bool
runs releasing = false
runs erasing = false
runs p = holds p

module _ {T : Type 0} where
  -- Between the steps of any interleaving.
  pub record IsGood (s : Team T) : Type 0 where
    pub fit : (i : ℕ) → Fits s.routine (s.stage_of i)
    pub apart : (i j : ℕ) → i ≢ j → holds (s.stage_of i) ≡ true → holds (s.stage_of j) ≡ false

  module _ (s : Team T) (i : ℕ) (p' : Stage T) (r' : Routine T) (g : IsGood s)
      (k : Keeps s.routine (s.stage_of i) p' r') where
    -- A thread that did not move.
    other-Fits : (j : ℕ) → j ≢ i → Fits r' (s.stage_of j)
    other-Fits j d = elim (Bool-cases (holds (s.stage_of i))) [
      | inl h ↦ idle-Fits r' (s.stage_of j) (g.apart i j (λ e. d (sym e)) h)
      | inr h ↦
          same-Fits s.routine r' (s.stage_of j) (g.fit j) (λ l. (k.quiet h l).1) (k.same h).0
            (k.same h).1
    ]

    other_apart : (j : ℕ) → j ≢ i → holds (s.stage_of j) ≡ true → holds p' ≡ false
    other_apart j d h =
        (k.quiet (g.apart j i d h) (holds-locked s.routine (s.stage_of j) (g.fit j) h)).0

    other_free : (j : ℕ) → j ≢ i → holds p' ≡ true → holds (s.stage_of j) ≡ false
    other_free j d h = elim (Bool-cases (holds (s.stage_of j))) [
      | inl c ↦ absurd (ground (arith, h, other_apart j d c))
      | inr c ↦ c
    ]

    advanced-IsGood : IsGood (advanced s i (p', r'))
    advanced-IsGood = record {
      fit = λ j. elim (update_cases s.stage_of i p' j) [
        | inl (e, u) ↦ subst (Fits r') (sym u) k.fits
        | inr (d, u) ↦ subst (Fits r') (sym u) (other-Fits j d)
      ];
      apart = λ j l d h. elim (update_cases s.stage_of i p' j) [
        | inl (e, u) ↦ elim (update_cases s.stage_of i p' l) [
          | inl (e', u') ↦ absurd (d (e ∙ sym e'))
          | inr (d', u') ↦ ap holds u' ∙ other_free l d' (ap holds (sym u) ∙ h)
        ]
        | inr (c, u) ↦ elim (update_cases s.stage_of i p' l) [
          | inl (e', u') ↦ ap holds u' ∙ other_apart j c (ap holds (sym u) ∙ h)
          | inr (d', u') ↦ ap holds u' ∙ g.apart j l d (ap holds (sym u) ∙ h)
        ]
      ];
    }

  step-IsGood : (s : Team T) (x : ℕ × Event T) → IsGood s → IsGood (step s x)
  unfolding step
  step-IsGood s (i, a) g =
      advanced-IsGood s i _ _ g (move-Keeps a (s.stage_of i) s.routine (g.fit i))

  pub run-IsGood : (s : Team T) (xs : List (ℕ × Event T)) → IsGood s → IsGood (run s xs)
  unfolding run
  run-IsGood s [] g = g
  run-IsGood s (x ∷ xs) g = run-IsGood (step s x) xs (step-IsGood s x g)

  pub started-IsGood : (size : ℕ) → IsGood (started size)
  started-IsGood size = record { fit = λ i. tt; apart = λ i j d h. absurd cc }

  runs-IsHeld : (r : Routine T) (p : Stage T) → Fits r p → runs p ≡ true → IsHeld r
  runs-IsHeld r out f h = absurd cc
  runs-IsHeld r notifying f h = absurd cc
  runs-IsHeld r clearing f h = absurd cc
  runs-IsHeld r stopping f h = absurd cc
  runs-IsHeld r erasing f h = absurd cc
  runs-IsHeld r releasing f h = absurd cc
  runs-IsHeld r resuming f h = f.0
  runs-IsHeld r _ f h = f

  -- Whatever processors, senders and removing threads do, and in any order: at most one thread holds
  -- the routine; a processor that resumes it finds it READY; and once it has left the run queue, no
  -- processor runs it.
  pub run_exclusive :
      (size : ℕ) (xs : List (ℕ × Event T))
      → let s = run (started size) xs in
        ((i j : ℕ) → i ≢ j → holds (s.stage_of i) ≡ true → holds (s.stage_of j) ≡ false)
        × ((i : ℕ) → s.stage_of i ≡ resuming → s.routine.state ≡ ready)
        × (s.routine.queued ≡ false → (i : ℕ) → runs (s.stage_of i) ≡ false)
  run_exclusive size xs =
      let s = run (started size) xs in
      let g = run-IsGood (started size) xs (started-IsGood size) in
      (
        g.apart,
        λ i e. (subst (Fits s.routine) e (g.fit i)).1,
        λ q i. elim (Bool-cases (runs (s.stage_of i))) [
          | inl c ↦ absurd (ground (arith, q, runs-IsHeld s.routine (s.stage_of i) (g.fit i) c))
          | inr c ↦ c
        ],
      )
