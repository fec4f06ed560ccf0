-- ===== src/Discovery/Nodes.antt =====
-- cyber/service_discovery/specific_manager/node_manager.cc: the nodes by their ids.
pub mod Duplicates
use cyber_rt_standalone_r.Prelude.{
  ℕ, List, [], ◌∷◌, Bool, true, false, ◌&&◌, not, Option, some, none, ◌||◌, if◌then◌else◌, ◌==◌,
}
use cyber_rt_standalone_r.Discovery.Keys.{Key, key_eq}
use cyber_rt_standalone_r.Discovery.Role.{RoleAttributes, number, text, Role, base, is_earlier_than}
use cyber_rt_standalone_r.Discovery.Warehouse.{RoleMap, search_matching}
use cyber_rt_standalone_r.Discovery.Warehouse.Single.{search_role, try_put, drop_key}
use cyber_rt_standalone_r.Discovery.Manager.{
  ChangeMsg, OperateType, opt_join, opt_leave, RoleType, role_node, Manager,
}
use cyber_rt_standalone_r.Discovery.Channels.{is_set, of_process}

pub record NodeManager : Type 0 where
  pub nodes : RoleMap
  -- Whether `AsyncShutdown` was called.
  pub terminates : Bool

unfoldable pub check : RoleAttributes → Bool
check attr = is_set attr.node_name && is_set attr.node_id

abbrev pub allowed : RoleType → Bool
allowed role_node = true
allowed _ = false

abbrev pub role_of : ChangeMsg → Role
role_of msg = record { kind = base; attributes = msg.role_attr; timestamp_ns = msg.timestamp }

abbrev pub is_own : Manager → Role → Bool
is_own o r =
    number r.attributes.process_id == o.process_id
    && key_eq (text r.attributes.host_name) o.host_name

abbrev pub put : ℕ → Role → RoleMap → RoleMap
put key node nodes = (try_put key node true nodes).1

-- The rest of `DisposeJoin` for a duplicated node, with what the search gave.
abbrev pub settle : Manager → ℕ → Role → NodeManager → Option Role → NodeManager
settle o key node m none = record m { nodes = put key node m.nodes }
settle o key node m (some existing) =
    if is_earlier_than node existing
    then record m { nodes = put key node m.nodes; terminates = m.terminates || is_own o existing }
    else record m { terminates = m.terminates || is_own o node }

abbrev pub joined : Manager → ℕ → Role → NodeManager → Bool × RoleMap → NodeManager
joined o key node m (true, nodes) = record m { nodes = nodes }
joined o key node m (false, nodes) = settle o key node m (search_role key m.nodes)

unfoldable pub dispose_join : Manager → ChangeMsg → NodeManager → NodeManager
unfolding try_put search_role
dispose_join o msg m =
    let node = role_of msg in
    let key = number node.attributes.node_id in joined o key node m (try_put key node false m.nodes)

unfoldable pub dispose_leave : ChangeMsg → NodeManager → NodeManager
unfolding drop_key
dispose_leave msg m = record m { nodes = drop_key (number msg.role_attr.node_id) m.nodes }

abbrev pub dispose_as : OperateType → Manager → ChangeMsg → NodeManager → NodeManager
dispose_as opt_join o msg m = dispose_join o msg m
dispose_as opt_leave o msg m = dispose_leave msg m

-- `Dispose`, without the call of the listeners.
unfoldable pub dispose : Manager → ChangeMsg → NodeManager → NodeManager
unfolding dispose_join dispose_leave
dispose o msg m = dispose_as msg.operate_type o msg m

-- The first loop of `OnTopoModuleLeave`.
unfoldable pub remove_nodes : List Role → RoleMap → RoleMap
unfolding drop_key
remove_nodes [] nodes = nodes
remove_nodes (r ∷ rs) nodes = remove_nodes rs (drop_key (number r.attributes.node_id) nodes)

unfoldable pub on_topo_module_leave : Manager → Key → ℕ → NodeManager → NodeManager
unfolding remove_nodes search_matching
on_topo_module_leave o host_name process_id m =
    if o.is_discovery_started
    then record m {
      nodes = remove_nodes (search_matching (of_process host_name process_id) m.nodes) m.nodes;
    }
    else m
