-- ===== src/Discovery/ManagerTests.antt =====
-- Runs of the managers of cyber/service_discovery on small inputs, and the theorems at them.
use cyber_rt_standalone_r.Prelude.{
  inl, arith, ℕ, List, [], ◌∷◌, true, false, Option, some, none, ◌≡◌, refl,
}
use cyber_rt_standalone_r.Discovery.Keys.{Key, key_eq, find, assign}
use cyber_rt_standalone_r.Discovery.Graph.{get_direction_of, upstream}
use cyber_rt_standalone_r.Discovery.Role.{RoleAttributes}
use cyber_rt_standalone_r.Discovery.Warehouse.{search_matching}
use cyber_rt_standalone_r.Discovery.Warehouse.Multi.{search_key}
use cyber_rt_standalone_r.Discovery.Warehouse.Single.{search_role}
use cyber_rt_standalone_r.Discovery.Manager.{
  ChangeMsg, opt_join, RoleType, role_writer, role_reader, role_node, Manager, convert,
  is_from_same_process, join,
}
use cyber_rt_standalone_r.Discovery.Manager.Replicas.{hear, hear-join}
use cyber_rt_standalone_r.Discovery.Channels.{
  fresh, allowed, check, dispose, of_process, on_topo_module_leave, get_flow_direction,
}
use cyber_rt_standalone_r.Discovery.Channels.Tables.{
  dispose_all, live_all, nobody, Accords, dispose_all-Accords,
}
use cyber_rt_standalone_r.Discovery.Channels.Departure.{on_topo_module_leave-dispose_all}
use cyber_rt_standalone_r.Discovery.Nodes.{NodeManager, is_own}
use cyber_rt_standalone_r.Discovery.Nodes as Nodes

abbrev here : Key
here = 104 ∷ []

abbrev there : Key
there = 116 ∷ []

-- A writer or reader of node `n` on channel `c`, with an id.
abbrev on : Option Key → Option ℕ → ℕ → ℕ → ℕ → RoleAttributes
on host process n c i = record {
  host_name = host;
  process_id = process;
  node_name = some (n ∷ []);
  node_id = some n;
  channel_name = some (c ∷ []);
  channel_id = some c;
  id = some i;
  service_name = none;
  service_id = none;
}

abbrev says : RoleType → RoleAttributes → ChangeMsg
says role attr = record {
  timestamp = 7;
  operate_type = opt_join;
  role_type = role;
  role_attr = attr;
}

abbrev msgs : List ChangeMsg
msgs =
    says role_writer (on (some here) (some 17) 65 1 100)
    ∷ says role_reader (on (some there) (some 18) 66 1 101)
    ∷ []

dispose_all-Accords_example : Accords (dispose_all msgs fresh) (live_all msgs nobody)
unfolding search_key
dispose_all-Accords_example =
    dispose_all-Accords msgs fresh nobody ((refl, refl), ((refl, refl), tt))
      ((tt, (λ k. refl), λ k. refl), (tt, (λ k. refl), λ k. refl))

abbrev owner : Manager
owner = record {
  is_shutdown = false;
  is_discovery_started = true;
  host_name = here;
  process_id = 17;
  has_publisher = true;
}

abbrev other : Manager
other = record owner { process_id = 18; host_name = there }

on_topo_module_leave-dispose_all_example :
    (search_matching
        (of_process there 18)
        (on_topo_module_leave owner 9 there 18 (dispose_all msgs fresh)).channel_writers
      ≡ [])
    × (search_matching
          (of_process there 18)
          (on_topo_module_leave owner 9 there 18 (dispose_all msgs fresh)).channel_readers
        ≡ [])
on_topo_module_leave-dispose_all_example =
    on_topo_module_leave-dispose_all owner 9 there 18 msgs refl ((refl, refl), ((refl, refl), tt))

abbrev printed : ChangeMsg → Option Key
printed m = some (1 ∷ [])

abbrev attr : RoleAttributes
attr = on none none 65 1 100

abbrev parsed : Key → Option ChangeMsg
parsed str = some (convert owner 5 attr role_writer opt_join)

hear-join_example :
    let out =
      join printed (λ str. true) allowed check dispose owner 5 true attr role_writer fresh in
    (hear printed (λ str. true) parsed allowed check dispose other out.0 fresh ≡ out.1.1)
    × (hear printed (λ str. true) parsed allowed check dispose owner out.0 out.1.1 ≡ out.1.1)
unfolding convert check is_from_same_process key_eq
hear-join_example =
    hear-join printed (λ str. true) parsed allowed check dispose owner other 5 attr role_writer
      (1 ∷ []) fresh refl refl refl refl refl refl refl refl (inl (λ q. absurd (omega (arith, q))))

abbrev nodes : NodeManager
nodes = record { nodes = []; terminates = false }

abbrev joins : ℕ → Key → ChangeMsg
joins time host = record {
  timestamp = time;
  operate_type = opt_join;
  role_type = role_node;
  role_attr = on (some host) (some 17) 65 0 0;
}

-- The second of two nodes with one name, which is of this process, ends it.
second_ends :
    (Nodes.dispose owner (joins 9 here) (Nodes.dispose owner (joins 4 there) nodes)).terminates
    ≡ true
unfolding Nodes.dispose Nodes.dispose_join search_role key_eq
second_ends = refl

flow : get_flow_direction (dispose_all msgs fresh) (65 ∷ []) (66 ∷ []) ≡ some upstream
unfolding dispose get_direction_of key_eq find assign
flow = refl
