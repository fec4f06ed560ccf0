-- ===== src/Base/Bounded/Alone.antt =====
-- A thread that no other one disturbs.
use cyber_rt_standalone_r.Prelude.{
  ℕ, ◌+◌, ◌<◌, ◌≡◌, refl, List, [], ◌∷◌, ◌++◌, true, false, ◌==◌, get_or, set, arith, mod-eq_of_add,
  mod-ne_of_near, add_u64, ==_iff,
}
use cyber_rt_standalone_r.Base.Bounded.{
  Shared, Phase, idle, Action, enqueue, dequeue, go, get_index, move,
}
use cyber_rt_standalone_r.Base.Bounded.Invariant.{get_index_lem, IsSound}

abbrev pub moves : {T : Type 0} → T → List (Action T) → Phase T × Shared T → Phase T × Shared T
moves d [] s = s
moves d (a ∷ as') s = moves d as' (move d a s.0 s.1)

abbrev pub goes : {T : Type 0} → List (Action T)
goes = go false ∷ go false ∷ go false ∷ go false ∷ []

-- The test of `Enqueue`: the queue is full, or a slot is free.
tests_full :
    {T : Type 0} (d : T) (m : Shared T)
    → IsSound d 4 m
    → m.tail + 1 ≡ m.head + m.pool_size
    → (get_index m.pool_size (add_u64 m.tail 1) == get_index m.pool_size m.head) ≡ true
tests_full d m s h = ground (
  arith,
  s.small,
  get_index_lem m.pool_size (add_u64 m.tail 1),
  get_index_lem m.pool_size m.head,
  mod-eq_of_add m.head (m.tail + 1) m.pool_size h,
)

tests_room :
    {T : Type 0} (d : T) (m : Shared T)
    → IsSound d 4 m
    → m.tail + 1 < m.head + m.pool_size
    → (get_index m.pool_size (add_u64 m.tail 1) == get_index m.pool_size m.head) ≡ false
tests_room d m s h = ground (
  arith,
  s.small,
  get_index_lem m.pool_size (add_u64 m.tail 1),
  get_index_lem m.pool_size m.head,
  mod-ne_of_near m.head (m.tail + 1) m.pool_size (omega (arith, s.ordered)) h,
)

eqb_refl : (n : ℕ) → (n == n) ≡ true
eqb_refl n = (==_iff n n).1 refl

module _ {T : Type 0} (d : T) (m : Shared T) (s : IsSound d 4 m) where
  pub enqueue_full :
      (x : T) → m.tail + 1 ≡ m.head + m.pool_size → moves d (enqueue x ∷ goes) (idle, m) ≡ (idle, m)
  unfolding move
  enqueue_full x h = rw (tests_full d m s h) refl

  pub enqueue_room :
      (x : T)
      → m.tail + 1 < m.head + m.pool_size
      → m.commit ≡ m.tail
      → moves d (enqueue x ∷ goes) (idle, m) ≡ (
        idle,
        record m {
          tail = add_u64 m.tail 1;
          log = m.log ++ x ∷ [];
          pool = set m.pool (get_index m.pool_size m.tail) x;
          commit = add_u64 m.tail 1;
        },
      )
  unfolding move
  enqueue_room x h c =
      let e : (m.commit == m.tail) ≡ true = (==_iff m.commit m.tail).1 c in
      simp (tests_room d m s h, eqb_refl m.tail, e)

  pub dequeue_empty : m.commit ≡ m.head + 1 → moves d (dequeue ∷ goes) (idle, m) ≡ (idle, m)
  unfolding move
  dequeue_empty h =
      let e : (add_u64 m.head 1 == m.commit) ≡ true = ground (arith, h, s.small, s.ordered) in
      rw e refl

  pub dequeue_some :
      m.head + 1 < m.commit
      → moves d (dequeue ∷ goes) (idle, m) ≡ (
        idle,
        record m {
          head = add_u64 m.head 1;
          out = m.out ++ get_or m.pool (get_index m.pool_size (add_u64 m.head 1)) d ∷ [];
        },
      )
  unfolding move
  dequeue_some h =
      let e : (add_u64 m.head 1 == m.commit) ≡ false = ground (arith, h, s.small, s.ordered) in
      simp (e, eqb_refl m.head)
