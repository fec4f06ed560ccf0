-- ===== src/History/Kept.antt =====
-- What a history keeps.
use cyber_rt_standalone_r.Prelude.{
  ℕ, zero, suc, ◌+◌, ◌≡◌, ◌≤◌, refl, sym, subst, ap, ◌∙◌, min, inl, inr, List, [], ◌∷◌, ◌++◌, true,
  length, ltb, arith, Bool-cases, length-append,
}
use mathlib.Core.List.{append_assoc, append-nil}
use cyber_rt_standalone_r.History.{History, trim, kept, add}

-- The second list is the end of the first, of the given length at most and as long as it can be.
abbrev pub IsNewest : {A : Type 0} → ℕ → List A → List A → Type 0
IsNewest {A} depth all msgs =
    ((gone : List A) × (all ≡ gone ++ msgs)) × (length msgs ≡ min depth (length all))

trim-IsNewest :
    {A : Type 0} (fuel depth : ℕ) (msgs : List A)
    → length msgs ≤ fuel + depth
    → IsNewest depth msgs (trim fuel depth msgs)
trim-IsNewest zero depth msgs h = (([], refl), omega arith)
trim-IsNewest (suc fuel) depth [] h = elim (Bool-cases (ltb depth 0)) [
  | inl e ↦ absurd (ground (arith, e))
  | inr e ↦ rw e (([], refl), omega arith)
]
trim-IsNewest (suc fuel) depth (x ∷ xs) h = elim (Bool-cases (ltb depth (length (x ∷ xs)))) [
  | inl e ↦
      let ((g, p), l) = trim-IsNewest fuel depth xs (omega arith) in
      rw e ((x ∷ g, ap (◌∷◌ x) p), ground (arith, l, e))
  | inr e ↦ rw e (([], refl), ground (arith, e))
]

kept-IsNewest :
    {A : Type 0} (depth : ℕ) (m : A) (msgs : List A)
    → length msgs ≤ depth
    → IsNewest depth (msgs ++ m ∷ []) (kept true depth m msgs)
kept-IsNewest depth m msgs h =
    trim-IsNewest (suc (length msgs)) depth (msgs ++ m ∷ [])
      (omega (arith, length-append msgs (m ∷ [])))

abbrev pub add_all : {T : Type 0} → List T → History T → History T
add_all [] h = h
add_all (m ∷ ms) h = add_all ms (add m h)

-- One message, and then the others.
IsNewest-step :
    {A : Type 0} (depth : ℕ) (old new rest : List A) (m : A) (ms : List A)
    → IsNewest depth (old ++ m ∷ []) new
    → IsNewest depth (new ++ ms) rest
    → IsNewest depth (old ++ m ∷ ms) rest
IsNewest-step depth old new rest m ms ((g, p), l) ((g', p'), l') = (
  (
    g ++ g',
    sym (append_assoc old (m ∷ []) ms)
        ∙ ap (λ xs. xs ++ ms) p
        ∙ append_assoc g new ms
        ∙ ap (λ xs. g ++ xs) p'
        ∙ sym (append_assoc g g' rest),
  ),
  omega
      (arith, l, l', length-append new ms, length-append old (m ∷ []), length-append old (m ∷ ms)),
)

-- Of the messages that an enabled history within its depth holds and is given, it keeps the newest
-- in their order, as many as its depth, or all if they are fewer.
pub add_all-IsNewest :
    {T : Type 0} (ms : List T) (h : History T)
    → h.enabled ≡ true
    → length h.msgs ≤ h.depth
    → IsNewest h.depth (h.msgs ++ ms) (add_all ms h).msgs
unfolding add
add_all-IsNewest [] h e w = (([], append-nil h.msgs), omega (arith, length-append h.msgs []))
add_all-IsNewest (m ∷ ms) h e w =
    let k : IsNewest h.depth (h.msgs ++ m ∷ []) (add m h).msgs =
      subst (λ b. IsNewest h.depth (h.msgs ++ m ∷ []) (kept b h.depth m h.msgs)) (sym e)
        (kept-IsNewest h.depth m h.msgs w) in
    IsNewest-step h.depth h.msgs (add m h).msgs (add_all (m ∷ ms) h).msgs m ms k
      (add_all-IsNewest ms (add m h) e (omega (arith, k.1)))
