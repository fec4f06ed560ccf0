-- ===== src/Discovery/Graph/Directions.antt =====
-- What `Graph::LevelTraverse` and `Graph::GetDirectionOf` say of the graph.
use cyber_rt_standalone_r.Prelude.{
  ℕ, zero, suc, ◌+◌, ◌≡◌, ◌↔◌, ◌⊎◌, inl, inr, refl, sym, ◌∙◌, ap, subst, List, [], ◌∷◌, ◌++◌, Bool,
  true, false, ◌||◌, not, some, Bool-cases, arith,
}
use mathlib.Core.Option
use mathlib.Core.Option.{some-injective, none-ne-some}
use cyber_rt_standalone_r.Discovery.Keys.{Key, key_eq, key_eq_iff, mem, mem-append, has}
use cyber_rt_standalone_r.Discovery.Graph.{
  VerticeSet, Graph, is_dummy, targets, traverse, num_of_edge, level_traverse, FlowDirection,
  unreachable, upstream, downstream, get_direction_of, direction,
}
use cyber_rt_standalone_r.Discovery.Graph.Traverse.{
  Reach, here, next, weight_nil, traverse_ends, traverse_sound, traverse_skips, traverse_stops,
  traverse_expands,
}

-- The targets of what is visited are visited or wait, but for those of the end.
abbrev pub Closed : List (Key × VerticeSet) → Key → List Key → List Key → Type 0
Closed l end visited queue =
    (a b : Key)
    → mem a visited ≡ true
    → key_eq a end ≡ false
    → mem b (targets l a) ≡ true
    → (mem b visited || mem b queue) ≡ true

Closed-skip :
    (l : List (Key × VerticeSet)) (end c : Key) (visited queue : List Key)
    → mem c visited ≡ true
    → Closed l end visited (c ∷ queue)
    → Closed l end visited queue
Closed-skip l end c visited queue e h a b ha he hb = ground (arith, h a b ha he hb, key_eq_iff c b)

Closed-expand :
    (l : List (Key × VerticeSet)) (end c : Key) (visited queue : List Key)
    → Closed l end visited (c ∷ queue)
    → Closed l end (c ∷ visited) (queue ++ targets l c)
Closed-expand l end c visited queue h a b ha he hb = elim (Bool-cases (key_eq c a)) [
  | inl e ↦ ground (
    arith,
    mem-append b queue (targets l c),
    subst (λ x. mem b (targets l x) ≡ true) (sym ((key_eq_iff c a).0 e)) hb,
  )
  | inr e ↦ ground (arith, mem-append b queue (targets l c), h a b (ground (arith, ha, e)) he hb)
]

-- A loop that ends has found the end, or has followed every edge that it met.
abbrev pub Explored : List (Key × VerticeSet) → Key → List Key → List Key → List Key → Type 0
Explored l end visited queue v =
    Closed l end v [] × ((k : Key) → (mem k visited || mem k queue) ≡ true → mem k v ≡ true)

-- Fewer vertices to account for.
Explored-keeps :
    (l : List (Key × VerticeSet)) (end : Key) (v : List Key)
    (visited queue visited' queue' : List Key)
    → ((k : Key) → (mem k visited || mem k queue) ≡ true → (mem k visited' || mem k queue') ≡ true)
    → (mem end v ≡ true) ⊎ Explored l end visited' queue' v
    → (mem end v ≡ true) ⊎ Explored l end visited queue v
Explored-keeps l end v visited queue visited' queue' f (inl m) = inl m
Explored-keeps l end v visited queue visited' queue' f (inr (hc, hi)) =
    inr (hc, λ k m. hi k (f k m))

pub traverse_complete :
    (fuel : ℕ) (l : List (Key × VerticeSet)) (end : Key) (visited queue v : List Key)
    → Closed l end visited queue
    → traverse fuel l end visited queue ≡ some v
    → (mem end v ≡ true) ⊎ Explored l end visited queue v
unfolding traverse
traverse_complete zero l end visited queue v hc h = absurd (none-ne-some v h)
traverse_complete (suc fuel) l end visited [] v hc h =
    inr (subst (Explored l end visited []) (some-injective visited v h) (hc, λ k m. ground arith))
traverse_complete (suc fuel) l end visited (c ∷ queue) v hc h = elim (Bool-cases (mem c visited)) [
  | inl e ↦
      Explored-keeps l end v visited (c ∷ queue) visited queue
        (λ k m. ground (arith, m, key_eq_iff c k, e))
        (traverse_complete fuel l end visited queue v (Closed-skip l end c visited queue e hc)
          (sym (traverse_skips l end c visited fuel queue e) ∙ h))
  | inr e ↦ elim (Bool-cases (key_eq c end)) [
    | inl d ↦ inl (
        subst (λ ks. mem end ks ≡ true)
          (some-injective (c ∷ visited) v (sym (traverse_stops l end c visited fuel queue e d) ∙ h))
          (ground (arith, d)))
    | inr d ↦
        Explored-keeps l end v visited (c ∷ queue) (c ∷ visited) (queue ++ targets l c)
          (λ k m. ground (arith, m, mem-append k queue (targets l c)))
          (traverse_complete fuel l end (c ∷ visited) (queue ++ targets l c) v
            (Closed-expand l end c visited queue hc)
            (sym (traverse_expands l end c visited fuel queue e d) ∙ h))
  ]
]

reached :
    (l : List (Key × VerticeSet)) (s end : Key) (v : List Key)
    → Closed l end v []
    → mem s v ≡ true
    → (k : Key) → Reach l s k
    → (mem end v ≡ true) ⊎ (mem k v ≡ true)
reached l s end v hc hs _ here = inr hs
reached l s end v hc hs _ (next b c r m) = elim (reached l s end v hc hs b r) [
  | inl i ↦ inl i
  | inr i ↦ elim (Bool-cases (key_eq b end)) [
    | inl e ↦ inl (subst (λ x. mem x v ≡ true) ((key_eq_iff b end).0 e) i)
    | inr e ↦ inr (ground (arith, hc b c i e m))
  ]
]

found :
    (l : List (Key × VerticeSet)) (s end : Key) (v : List Key)
    → Reach l s end
    → (mem end v ≡ true) ⊎ Explored l end [] (s ∷ []) v
    → mem end v ≡ true
found l s end v r (inl m) = m
found l s end v r (inr (hc, hi)) =
    elim (reached l s end v hc (hi s (ground (arith, key_eq_iff s s))) end r) [
      | inl m ↦ m
      | inr m ↦ m
    ]

-- A traversal ends, and finds the end exactly where the start reaches it.
pub level_traverse-Reach :
    (l : List (Key × VerticeSet)) (s end : Key)
    → (r : Bool) × (level_traverse l s end ≡ some r) × ((r ≡ true) ↔ Reach l s end)
unfolding level_traverse
level_traverse-Reach l s end =
    let (v, h) =
      traverse_ends (num_of_edge l + 2) l end [] (s ∷ []) (omega (arith, weight_nil l)) in
    (
      mem end v,
      ap (Option.map (mem end)) h,
      (
        λ m.
            traverse_sound (num_of_edge l + 2) l s end [] (s ∷ []) v (λ k m. absurd cc)
              (λ k m. subst (Reach l s) ((key_eq_iff s k).0 (ground (arith, m))) here) h end m,
        λ r.
            found l s end v r (
              traverse_complete (num_of_edge l + 2) l end [] (s ∷ []) v (λ a b m e t. absurd cc) h),
      ),
    )

false_ne_true : ¬ (false ≡ true)
false_ne_true e = absurd cc

-- The direction that two answers give.
direction_lem :
    (P Q : Type 0) (a b : Bool)
    → ((a ≡ true) ↔ P)
    → ((b ≡ true) ↔ Q)
    → (d : FlowDirection) × (direction (some a) (some b) ≡ some d)
      × ((d ≡ upstream) ↔ P)
      × ((d ≡ downstream) ↔ (¬ P × Q))
direction_lem P Q true b p q =
    (upstream, refl, (λ e. p.0 refl, λ x. refl), (λ e. absurd cc, λ t. absurd (t.0 (p.0 refl))))
direction_lem P Q false true p q = (
  downstream,
  refl,
  (λ e. absurd cc, λ x. absurd (false_ne_true (p.1 x))),
  (λ e. (λ x. false_ne_true (p.1 x), q.0 refl), λ t. refl),
)
direction_lem P Q false false p q = (
  unreachable,
  refl,
  (λ e. absurd cc, λ x. absurd (false_ne_true (p.1 x))),
  (λ e. absurd cc, λ t. absurd (false_ne_true (q.1 (t.1)))),
)

-- Of two vertices that have names and stand in the graph, the first is upstream exactly if it reaches
-- the second, and downstream exactly if only the second reaches it.
pub get_direction_of-Reach :
    (g : Graph) (lhs rhs : Key)
    → (is_dummy lhs || is_dummy rhs || not (has lhs g.list) || not (has rhs g.list)) ≡ false
    → (d : FlowDirection) × (get_direction_of g lhs rhs ≡ some d)
      × ((d ≡ upstream) ↔ Reach g.list lhs rhs)
      × ((d ≡ downstream) ↔ (¬ Reach g.list lhs rhs × Reach g.list rhs lhs))
unfolding get_direction_of
get_direction_of-Reach g lhs rhs k =
    let (a, h, i) = level_traverse-Reach g.list lhs rhs in
    let (b, h', i') = level_traverse-Reach g.list rhs lhs in
    rw (k, h, h') (direction_lem (Reach g.list lhs rhs) (Reach g.list rhs lhs) a b i i')
