-- ===== src/Discovery/Tests.antt =====
-- Runs of cyber/service_discovery on small inputs, and the theorems at them.
use cyber_rt_standalone_r.Prelude.{
  tally, false, ℕ, List, ◌+◌, none, ◌≡◌, ◌↔◌, refl, [], ◌∷◌, Bool, true, some,
}
use cyber_rt_standalone_r.Discovery.Keys.{Key, key_eq, find, assign, erase}
use cyber_rt_standalone_r.Discovery.Graph.{
  Graph, empty, insert, delete, level_traverse, get_direction_of, FlowDirection, upstream,
  downstream, unreachable,
}
use cyber_rt_standalone_r.Discovery.Graph.Traverse.{Reach}
use cyber_rt_standalone_r.Discovery.Graph.Directions.{level_traverse-Reach, get_direction_of-Reach}
use cyber_rt_standalone_r.Discovery.Role.{
  RoleAttributes, Role, number, writer, match, match_writer, match_base,
}
use cyber_rt_standalone_r.Discovery.Role.Match.{Fits, match-Fits}
use cyber_rt_standalone_r.Discovery.Warehouse.{Op, add, remove_role}
use cyber_rt_standalone_r.Discovery.Warehouse.Multi.{search_key, run}
use cyber_rt_standalone_r.Discovery.Warehouse.Multi.Held.{expect_all, tally-search_key-run}
use cyber_rt_standalone_r.Discovery.Warehouse.Single.{search_role, perform_all}
use cyber_rt_standalone_r.Discovery.Warehouse.Single.Lookup.{Unique, search_role-perform_all}
use cyber_rt_standalone_r.Discovery.Warehouse.Single.Lookup as Lookup

abbrev a : Key
a = 97 ∷ []

abbrev b : Key
b = 98 ∷ []

abbrev c : Key
c = 99 ∷ []

abbrev none_of : Key
none_of = []

-- `a` writes channel 1, which `b` reads; `b` writes channel 2, which `c` reads.
abbrev chain : Graph
chain =
    insert
      (insert
        (insert (insert empty (record { src = a; dst = none_of; value = 49 ∷ [] }))
          (record { src = none_of; dst = b; value = 49 ∷ [] }))
        (record { src = b; dst = none_of; value = 50 ∷ [] }))
      (record { src = none_of; dst = c; value = 50 ∷ [] })

chain_ends : get_direction_of chain a c ≡ some upstream
unfolding insert get_direction_of key_eq find assign
chain_ends = refl

chain_back : get_direction_of chain c b ≡ some downstream
unfolding insert get_direction_of key_eq find assign
chain_back = refl

chain_cut :
    get_direction_of (delete chain (record { src = b; dst = none_of; value = 50 ∷ [] })) a c
    ≡ some unreachable
unfolding insert delete get_direction_of key_eq find assign erase
chain_cut = refl

-- `a` writes the channels `x` and `x_y`; the node `y_z` reads the first and `z` the second. Both edges
-- have the key `x_y_z`, so that the second takes the place of the first.
abbrev shared_key : Graph
shared_key =
    insert
      (insert
        (insert (insert empty (record { src = a; dst = none_of; value = 120 ∷ [] }))
          (record { src = none_of; dst = 121 ∷ 95 ∷ 122 ∷ []; value = 120 ∷ [] }))
        (record { src = a; dst = none_of; value = 120 ∷ 95 ∷ 121 ∷ [] }))
      (record { src = none_of; dst = 122 ∷ []; value = 120 ∷ 95 ∷ 121 ∷ [] })

shared_key_loses : get_direction_of shared_key a (121 ∷ 95 ∷ 122 ∷ []) ≡ some unreachable
unfolding insert get_direction_of key_eq find assign
shared_key_loses = refl

level_traverse-Reach_example :
    (r : Bool) × (level_traverse chain.list a c ≡ some r) × ((r ≡ true) ↔ Reach chain.list a c)
level_traverse-Reach_example = level_traverse-Reach chain.list a c

get_direction_of-Reach_example :
    (d : FlowDirection) × (get_direction_of chain a c ≡ some d)
    × ((d ≡ upstream) ↔ Reach chain.list a c)
    × ((d ≡ downstream) ↔ (¬ Reach chain.list a c × Reach chain.list c a))
unfolding insert key_eq find assign
get_direction_of-Reach_example = get_direction_of-Reach chain a c refl

-- The attributes of a writer on a channel, with an id.
abbrev writes : ℕ → ℕ → RoleAttributes
writes channel writer_id = record {
  host_name = some a;
  process_id = some 17;
  node_name = none;
  node_id = some 5;
  channel_name = none;
  channel_id = some channel;
  id = some writer_id;
  service_name = none;
  service_id = none;
}

abbrev role_of : RoleAttributes → Role
role_of attr = record { kind = writer; attributes = attr; timestamp_ns = 0 }

abbrev all_of_node : RoleAttributes
all_of_node = record {
  host_name = none;
  process_id = none;
  node_name = none;
  node_id = some 5;
  channel_name = none;
  channel_id = none;
  id = none;
  service_name = none;
  service_id = none;
}

match_self_run : match (role_of (writes 1 2)) all_of_node ≡ true
unfolding match match_writer match_base
match_self_run = refl

match-Fits_example :
    (match (role_of (writes 1 2)) all_of_node ≡ true) ↔ Fits writer (writes 1 2) all_of_node
match-Fits_example = match-Fits (role_of (writes 1 2)) all_of_node

abbrev calls : List Op
calls =
    add 1 (role_of (writes 1 2)) true
    ∷ add 1 (role_of (writes 1 3)) true
    ∷ add 2 (role_of (writes 2 4)) false
    ∷ remove_role 1 (role_of (writes 1 2))
    ∷ []

tally-search_key-run_example :
    tally (λ r. number r.attributes.channel_id + 1) (search_key 1 (run calls []))
    ≡ tally (λ r. number r.attributes.channel_id + 1) (expect_all calls (λ k. search_key k []) 1)
tally-search_key-run_example =
    tally-search_key-run (λ r. number r.attributes.channel_id + 1) calls [] 1

search_role-perform_all_example :
    Unique (perform_all calls [])
    × (search_role 1 (perform_all calls []) ≡ Lookup.expect_all calls (λ k. search_role k []) 1)
search_role-perform_all_example = search_role-perform_all calls [] 1 tt
