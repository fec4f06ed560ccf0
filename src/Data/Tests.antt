-- ===== src/Data/Tests.antt =====
-- Runs of cyber/data on small inputs, and the theorems at them.
use cyber_rt_standalone_r.Prelude.{ℕ, ◌≡◌, refl, List, [], ◌∷◌, some, arith}
use cyber_rt_standalone_r.Data.Buffer.{CacheBuffer, init, store}
use cyber_rt_standalone_r.Data.Buffer.History.{Holds, init-Holds, store-Holds}
use cyber_rt_standalone_r.Data.Channel.{fetch_multi}
use cyber_rt_standalone_r.Data.Channel.Reads.{fetch_multi_lem, owed}
use cyber_rt_standalone_r.Data.Visitor.{Visitor, create, arrival, drain}
use cyber_rt_standalone_r.Data.Visitor.Delivery.{
  Reading, create-Reading, arrival-Reading, drain_lem,
}
use cyber_rt_standalone_r.Data.Fusion.{
  Arrival, on0, on1, on2, on3, create as create_fusion, steps, fusion,
}
use cyber_rt_standalone_r.Data.Fusion.Joins.{observe, observe_all, fusion_lem}

abbrev Numbers : Type 0
Numbers = CacheBuffer (Unit {0}) ℕ

-- A buffer for two messages after 5, 6 and 7.
abbrev buffered : Numbers
buffered = store (store (store (init 0 2) 5) 6) 7

abbrev buffered-Holds : Holds 0 2 buffered (5 ∷ 6 ∷ 7 ∷ [])
buffered-Holds =
    store-Holds 0 2 _ (5 ∷ 6 ∷ []) 7
      (store-Holds 0 2 _ (5 ∷ []) 6
        (store-Holds 0 2 _ [] 5 (init-Holds 0 2 (omega arith)) (omega arith)) (omega arith))
      (omega arith)

fetch_multi_lem_example : fetch_multi 0 buffered 5 ≡ some (6 ∷ 7 ∷ [])
fetch_multi_lem_example =
    fetch_multi_lem 0 2 buffered (5 ∷ 6 ∷ 7 ∷ []) 5 buffered-Holds (omega arith)

abbrev reader : Visitor ℕ
reader = record (arrival (arrival (create 0 2) 5) 6) { next_msg_index = 1 }

abbrev reader-Reading : Reading 0 2 reader (5 ∷ 6 ∷ [])
reader-Reading =
    let r : Reading 0 2 (arrival (arrival (create 0 2) 5) 6) (5 ∷ 6 ∷ []) =
      arrival-Reading 0 2 (arrival (create 0 2) 5) (5 ∷ []) 6
        (arrival-Reading 0 2 (create 0 2) [] 5 (create-Reading 0 2 (omega arith)) (omega arith))
        (omega arith) in
    record { holds = r.holds; plain = r.plain; reach = omega arith }

drain_lem_example : drain 0 3 reader ≡ (5 ∷ 6 ∷ [], record reader { next_msg_index = 3 })
drain_lem_example =
    drain_lem 0 2 2 reader (5 ∷ 6 ∷ []) 0 reader-Reading refl (omega arith) refl (omega arith)

abbrev arrivals4 : List (Arrival ℕ ℕ ℕ ℕ)
arrivals4 = on0 1 ∷ on1 10 ∷ on2 20 ∷ on3 30 ∷ on0 2 ∷ on1 11 ∷ on0 3 ∷ []

fusion_lem_example :
    fusion 0 0 0 0 (steps 0 0 0 0 (create_fusion 0 0 0 0 2 1 1 1) arrivals4) 2
    ≡ (some (3, 11, 20, 30), 2)
unfolding owed observe_all observe
fusion_lem_example =
    fusion_lem 0 0 0 0 2 1 1 1 arrivals4 2 (omega arith) (omega arith) (omega arith) (omega arith)
      (omega arith) (omega arith) (omega arith) (omega arith) (omega arith) (omega arith)
