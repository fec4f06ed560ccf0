-- ===== src/Discovery/Graph/Traverse.antt =====
-- Which vertices `Graph::LevelTraverse` finds, and that its loop ends.
use cyber_rt_standalone_r.Prelude.{
  ℕ, zero, suc, ◌+◌, ◌≡◌, ◌≤◌, ◌<◌, inl, inr, refl, sym, ◌∙◌, ap, subst, List, [], ◌∷◌, ◌++◌, Bool,
  true, false, some, none, if◌then◌else◌, length, length-append, Bool-cases, arith,
}
use mathlib.Core.Option.{some-injective, none-ne-some}
use cyber_rt_standalone_r.Discovery.Keys.{Key, key_eq, key_eq_iff, mem, mem-append, find, values}
use cyber_rt_standalone_r.Discovery.Graph.{VerticeSet, targets, traverse, num_of_edge}

-- A path along the edges of the graph.
pub data Reach (l : List (Key × VerticeSet)) (a : Key) : Key → Type 0 where
  here : Reach l a a
  next : (b c : Key) → Reach l a b → mem c (targets l b) ≡ true → Reach l a c

length-values : (m : VerticeSet) → length (values m) ≡ length m
length-values [] = refl
length-values ((k, v) ∷ m) = ap suc (length-values m)

-- The edges that leave vertices not yet visited.
abbrev pub weight : List (Key × VerticeSet) → List Key → ℕ
weight [] visited = 0
weight ((k, vs) ∷ l) visited = (if mem k visited then 0 else length vs) + weight l visited

pub weight_nil : (l : List (Key × VerticeSet)) → weight l [] ≡ num_of_edge l
weight_nil [] = refl
weight_nil ((k, vs) ∷ l) = ap (◌+◌ (length vs)) (weight_nil l)

weight_le :
    (l : List (Key × VerticeSet)) (c : Key) (visited : List Key)
    → weight l (c ∷ visited) ≤ weight l visited
weight_le [] c visited = omega arith
weight_le ((k, vs) ∷ l) c visited = ground (arith, weight_le l c visited)

values_if :
    (b : Bool) (vs : VerticeSet) (l : List (Key × VerticeSet)) (c : Key)
    → values (elim (if b then some vs else find c l) [ some v ↦ v | none ↦ [] ])
      ≡ (if b then values vs else targets l c)
values_if true vs l c = refl
values_if false vs l c = refl

targets_cons :
    (k : Key) (vs : VerticeSet) (l : List (Key × VerticeSet)) (c : Key)
    → targets ((k, vs) ∷ l) c ≡ (if key_eq k c then values vs else targets l c)
unfolding find
targets_cons k vs l c = values_if (key_eq k c) vs l c

weight_lt :
    (l : List (Key × VerticeSet)) (c : Key) (visited : List Key)
    → mem c visited ≡ false
    → weight l (c ∷ visited) + length (targets l c) ≤ weight l visited
unfolding find
weight_lt [] c visited h = omega arith
weight_lt ((k, vs) ∷ l) c visited h = rw (targets_cons k vs l c) (
    ground (
      arith,
      length-values vs,
      key_eq_iff k c,
      key_eq_iff c k,
      weight_le l c visited,
      weight_lt l c visited h,
    ))

-- Enough fuel for the vertices that wait and the edges that are left.
pub traverse_ends :
    (fuel : ℕ) (l : List (Key × VerticeSet)) (end : Key) (visited queue : List Key)
    → length queue + weight l visited < fuel
    → (v : List Key) × (traverse fuel l end visited queue ≡ some v)
unfolding traverse
traverse_ends zero l end visited queue h = absurd (omega arith)
traverse_ends (suc fuel) l end visited [] h = (visited, refl)
traverse_ends (suc fuel) l end visited (c ∷ queue) h = elim (Bool-cases (mem c visited)) [
  | inl e ↦ rw e (traverse_ends fuel l end visited queue (omega arith))
  | inr e ↦ elim (Bool-cases (key_eq c end)) [
    | inl d ↦ (c ∷ visited, rw (e, d) refl)
    | inr d ↦
        rw (e, d)
          (traverse_ends fuel l end (c ∷ visited) (queue ++ targets l c)
            (omega (arith, weight_lt l c visited e, length-append queue (targets l c), h)))
  ]
]

-- What the loop keeps: it has only met vertices that the start reaches.
abbrev pub AllReach : List (Key × VerticeSet) → Key → List Key → Type 0
AllReach l s ks = (k : Key) → mem k ks ≡ true → Reach l s k

AllReach-append :
    {l : List (Key × VerticeSet)} {s : Key} (xs ys : List Key)
    → AllReach l s xs
    → AllReach l s ys
    → AllReach l s (xs ++ ys)
AllReach-append xs ys hx hy k h = ground (arith, mem-append k xs ys, hx k, hy k)

AllReach-cons :
    {l : List (Key × VerticeSet)} {s : Key} (c : Key) (xs : List Key)
    → Reach l s c
    → AllReach l s xs
    → AllReach l s (c ∷ xs)
AllReach-cons {l} {s} c xs hc hx k h = elim (Bool-cases (key_eq c k)) [
  | inl e ↦ subst (Reach l s) ((key_eq_iff c k).0 e) hc
  | inr e ↦ hx k (ground (arith, h, e))
]

AllReach-targets :
    {l : List (Key × VerticeSet)} {s : Key} (c : Key) → Reach l s c → AllReach l s (targets l c)
AllReach-targets c h k m = next c k h m

-- A round of the loop, by its three branches.
module _ (l : List (Key × VerticeSet)) (end c : Key) (visited : List Key) (fuel : ℕ)
    (queue : List Key) where
  pub traverse_skips :
      mem c visited ≡ true
      → traverse (suc fuel) l end visited (c ∷ queue) ≡ traverse fuel l end visited queue
  unfolding traverse
  traverse_skips e = rw e refl

  pub traverse_stops :
      mem c visited ≡ false
      → key_eq c end ≡ true
      → traverse (suc fuel) l end visited (c ∷ queue) ≡ some (c ∷ visited)
  unfolding traverse
  traverse_stops e d = rw (e, d) refl

  pub traverse_expands :
      mem c visited ≡ false
      → key_eq c end ≡ false
      → traverse (suc fuel) l end visited (c ∷ queue)
        ≡ traverse fuel l end (c ∷ visited) (queue ++ targets l c)
  unfolding traverse
  traverse_expands e d = rw (e, d) refl

-- Every vertex that the loop has visited is reachable.
pub traverse_sound :
    (fuel : ℕ) (l : List (Key × VerticeSet)) (s end : Key) (visited queue v : List Key)
    → AllReach l s visited
    → AllReach l s queue
    → traverse fuel l end visited queue ≡ some v
    → AllReach l s v
unfolding traverse
traverse_sound zero l s end visited queue v hv hq h = absurd (none-ne-some v h)
traverse_sound (suc fuel) l s end visited [] v hv hq h =
    subst (AllReach l s) (some-injective visited v h) hv
traverse_sound (suc fuel) l s end visited (c ∷ queue) v hv hq h =
    let hc : Reach l s c = hq c (ground (arith, key_eq_iff c c)) in
    let rest : AllReach l s queue = λ k m. hq k (ground (arith, m)) in
    elim (Bool-cases (mem c visited)) [
      | inl e ↦
          traverse_sound fuel l s end visited queue v hv rest
            (sym (traverse_skips l end c visited fuel queue e) ∙ h)
      | inr e ↦ elim (Bool-cases (key_eq c end)) [
        | inl d ↦
            subst (AllReach l s)
              (some-injective (c ∷ visited) v
                (sym (traverse_stops l end c visited fuel queue e d) ∙ h))
              (AllReach-cons c visited hc hv)
        | inr d ↦
            traverse_sound fuel l s end (c ∷ visited) (queue ++ targets l c) v
              (AllReach-cons c visited hc hv)
              (AllReach-append queue (targets l c) rest (AllReach-targets c hc))
              (sym (traverse_expands l end c visited fuel queue e d) ∙ h)
      ]
    ]
