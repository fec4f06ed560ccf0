-- ===== src/Discovery/Services.antt =====
-- cyber/service_discovery/specific_manager/service_manager.cc: the server of each service, and its clients.
use cyber_rt_standalone_r.Prelude.{ℕ, List, [], ◌∷◌, Bool, true, false, ◌&&◌, if◌then◌else◌}
use cyber_rt_standalone_r.Discovery.Keys.{Key}
use cyber_rt_standalone_r.Discovery.Role.{RoleAttributes, number, Role, server}
use cyber_rt_standalone_r.Discovery.Warehouse.{RoleMap, search_matching}
use cyber_rt_standalone_r.Discovery.Warehouse.Single.{try_put, drop_key}
use cyber_rt_standalone_r.Discovery.Warehouse.Multi.{try_add, erase_role}
use cyber_rt_standalone_r.Discovery.Manager.{
  ChangeMsg, OperateType, opt_join, opt_leave, RoleType, role_server, role_client, Manager,
}
use cyber_rt_standalone_r.Discovery.Channels.{is_set, of_process}

pub record ServiceManager : Type 0 where
  pub servers : RoleMap
  pub clients : RoleMap

pub check : RoleAttributes → Bool
check attr = is_set attr.service_name && is_set attr.service_id

abbrev pub allowed : RoleType → Bool
allowed role_server = true
allowed role_client = true
allowed _ = false

abbrev pub is_server : RoleType → Bool
is_server role_server = true
is_server _ = false

-- `RoleServer` and `RoleClient` are one class.
abbrev pub role_of : RoleAttributes → Role
role_of attr = record { kind = server; attributes = attr; timestamp_ns = 0 }

pub dispose_join : ChangeMsg → ServiceManager → ServiceManager
unfolding try_put try_add
dispose_join msg m =
    let key = number msg.role_attr.service_id in
    let role = role_of msg.role_attr in
    if is_server msg.role_type
    then record m { servers = (try_put key role true m.servers).1 }
    else record m { clients = (try_add key role true m.clients).1 }

pub dispose_leave : ChangeMsg → ServiceManager → ServiceManager
unfolding drop_key erase_role
dispose_leave msg m =
    let key = number msg.role_attr.service_id in
    if is_server msg.role_type
    then record m { servers = drop_key key m.servers }
    else record m { clients = erase_role key msg.role_attr m.clients }

abbrev pub dispose_as : OperateType → ChangeMsg → ServiceManager → ServiceManager
dispose_as opt_join msg m = dispose_join msg m
dispose_as opt_leave msg m = dispose_leave msg m

-- `Dispose`, without the call of the listeners.
pub dispose : ChangeMsg → ServiceManager → ServiceManager
dispose msg m = dispose_as msg.operate_type msg m

-- The loops of `OnTopoModuleLeave`.
pub remove_servers : List Role → RoleMap → RoleMap
unfolding drop_key
remove_servers [] servers = servers
remove_servers (r ∷ rs) servers =
    remove_servers rs (drop_key (number r.attributes.service_id) servers)

pub remove_clients : List Role → RoleMap → RoleMap
unfolding erase_role
remove_clients [] clients = clients
remove_clients (r ∷ rs) clients =
    remove_clients rs (erase_role (number r.attributes.service_id) r.attributes clients)

pub on_topo_module_leave : Manager → Key → ℕ → ServiceManager → ServiceManager
unfolding remove_servers remove_clients search_matching
on_topo_module_leave o host_name process_id m =
    let attr = of_process host_name process_id in
    if o.is_discovery_started
    then record m {
      servers = remove_servers (search_matching attr m.servers) m.servers;
      clients = remove_clients (search_matching attr m.clients) m.clients;
    }
    else m
