-- ===== src/Scheduler/Routine/Covered.antt =====
-- What holds of the routine, or a thread is about to see to it.
use cyber_rt_standalone_r.Prelude.{
  ℕ, ◌≡◌, ◌⊎◌, inl, inr, refl, ap, ◌∙◌, subst, Bool, true, ◌||◌, arith, Bool-cases, update_cases,
}
use cyber_rt_standalone_r.Scheduler.Routine.{Routine, advanced, Stage, Team}

module _ {T : Type 0} (good : Routine T → Bool) (helps : Stage T → Bool) where
  abbrev pub Covers : Routine T → Stage T → Stage T × Routine T → Type 0
  Covers r p (p', r') = (good r || helps p) ≡ true → (good r' || helps p') ≡ true

  abbrev pub IsCovered : Team T → Type 0
  IsCovered s = (good s.routine ≡ true) ⊎ ((i : ℕ) × (helps (s.stage_of i) ≡ true))

  module _ (s : Team T) (i : ℕ) (p' : Stage T) (r' : Routine T)
      (k : Covers s.routine (s.stage_of i) (p', r')) where
    self_covers :
        (good s.routine || helps (s.stage_of i)) ≡ true → IsCovered (advanced s i (p', r'))
    self_covers h = elim (Bool-cases (good r')) [
      | inl c ↦ inl c
      | inr c ↦ inr (
        i,
        elim (update_cases s.stage_of i p' i) [
          | inl (e, u) ↦ ap helps u ∙ (ground (arith, k h, c))
          | inr (d, u) ↦ absurd (d refl)
        ],
      )
    ]

    pub advanced-IsCovered : IsCovered s → IsCovered (advanced s i (p', r'))
    advanced-IsCovered (inl c) = self_covers (ground (arith, c))
    advanced-IsCovered (inr (j, h)) = elim (update_cases s.stage_of i p' j) [
      | inl (e, u) ↦ self_covers (ground (arith, subst (λ l. helps (s.stage_of l) ≡ true) e h))
      | inr (d, u) ↦ inr (j, ap helps u ∙ h)
    ]
