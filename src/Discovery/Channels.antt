-- ===== src/Discovery/Channels.antt =====
-- cyber/service_discovery/specific_manager/channel_manager.cc: the writers and readers of every channel,
-- in two warehouses each, and the graph of the nodes. The check of message types only writes to the
-- log; the registration of a descriptor is left out.
pub mod Tables
pub mod Departure
use cyber_rt_standalone_r.Prelude.{
  ℕ, List, [], ◌∷◌, ◌++◌, Bool, true, false, ◌&&◌, not, Option, some, none, if◌then◌else◌,
}
use cyber_rt_standalone_r.Discovery.Keys.{Key}
use cyber_rt_standalone_r.Discovery.Graph.{
  Edge, Graph, empty, insert, delete, get_direction_of, FlowDirection,
}
use cyber_rt_standalone_r.Discovery.Role.{RoleAttributes, number, text, Role, writer}
use cyber_rt_standalone_r.Discovery.Warehouse.{RoleMap, is_found, search_matching}
use cyber_rt_standalone_r.Discovery.Warehouse.Multi.{search_key, try_add, erase_role}
use cyber_rt_standalone_r.Discovery.Manager.{
  ChangeMsg, OperateType, opt_join, opt_leave, RoleType, role_writer, role_reader, role_node,
  Manager, convert,
}

pub record ChannelManager : Type 0 where
  pub node_graph : Graph
  pub node_writers : RoleMap
  pub node_readers : RoleMap
  pub channel_writers : RoleMap
  pub channel_readers : RoleMap

abbrev pub fresh : ChannelManager
fresh = record {
  node_graph = empty;
  node_writers = [];
  node_readers = [];
  channel_writers = [];
  channel_readers = [];
}

abbrev pub is_set : {A : Type 0} → Option A → Bool
is_set none = false
is_set (some a) = true

unfoldable pub check : RoleAttributes → Bool
check attr = is_set attr.channel_name && is_set attr.channel_id && is_set attr.id

-- `allowed_role_`.
abbrev pub allowed : RoleType → Bool
allowed role_writer = true
allowed role_reader = true
allowed _ = false

abbrev pub out_edge : RoleAttributes → Edge
out_edge attr = record { src = text attr.node_name; dst = []; value = text attr.channel_name }

abbrev pub in_edge : RoleAttributes → Edge
in_edge attr = record { src = []; dst = text attr.node_name; value = text attr.channel_name }

-- `RoleWriter` and `RoleReader` are one class.
abbrev pub role_of : RoleAttributes → ℕ → Role
role_of attr timestamp = record { kind = writer; attributes = attr; timestamp_ns = timestamp }

abbrev pub put : ℕ → Role → RoleMap → RoleMap
put key role roles = (try_add key role true roles).1

abbrev pub join_writer : Role → ChannelManager → ChannelManager
join_writer r m = record m {
  node_writers = put (number r.attributes.node_id) r m.node_writers;
  channel_writers = put (number r.attributes.channel_id) r m.channel_writers;
  node_graph = insert m.node_graph (out_edge r.attributes);
}

abbrev pub join_reader : Role → ChannelManager → ChannelManager
join_reader r m = record m {
  node_readers = put (number r.attributes.node_id) r m.node_readers;
  channel_readers = put (number r.attributes.channel_id) r m.channel_readers;
  node_graph = insert m.node_graph (in_edge r.attributes);
}

abbrev pub leave_writer : RoleAttributes → ChannelManager → ChannelManager
leave_writer a m = record m {
  node_writers = erase_role (number a.node_id) a m.node_writers;
  channel_writers = erase_role (number a.channel_id) a m.channel_writers;
  node_graph = delete m.node_graph (out_edge a);
}

abbrev pub leave_reader : RoleAttributes → ChannelManager → ChannelManager
leave_reader a m = record m {
  node_readers = erase_role (number a.node_id) a m.node_readers;
  channel_readers = erase_role (number a.channel_id) a m.channel_readers;
  node_graph = delete m.node_graph (in_edge a);
}

abbrev pub is_writer : RoleType → Bool
is_writer role_writer = true
is_writer _ = false

unfoldable pub dispose_join : ChangeMsg → ChannelManager → ChannelManager
unfolding try_add insert
dispose_join msg m =
    if is_writer msg.role_type
    then join_writer (role_of msg.role_attr msg.timestamp) m
    else join_reader (role_of msg.role_attr msg.timestamp) m

unfoldable pub dispose_leave : ChangeMsg → ChannelManager → ChannelManager
unfolding erase_role delete
dispose_leave msg m =
    if is_writer msg.role_type then leave_writer msg.role_attr m else leave_reader msg.role_attr m

-- `Dispose`, without the call of the listeners.
abbrev pub dispose_as : OperateType → ChangeMsg → ChannelManager → ChannelManager
dispose_as opt_join msg m = dispose_join msg m
dispose_as opt_leave msg m = dispose_leave msg m

unfoldable pub dispose : ChangeMsg → ChannelManager → ChannelManager
unfolding dispose_join dispose_leave
dispose msg m = dispose_as msg.operate_type msg m

-- The queries by name, with the key that `GlobalData` registers for it.
abbrev pub has_writer : ChannelManager → ℕ → Bool
has_writer m key = is_found (search_key key m.channel_writers)

abbrev pub has_reader : ChannelManager → ℕ → Bool
has_reader m key = is_found (search_key key m.channel_readers)

abbrev pub get_writers_of_node : ChannelManager → ℕ → List Role
get_writers_of_node m key = search_key key m.node_writers

abbrev pub get_writers_of_channel : ChannelManager → ℕ → List Role
get_writers_of_channel m key = search_key key m.channel_writers

abbrev pub get_readers_of_node : ChannelManager → ℕ → List Role
get_readers_of_node m key = search_key key m.node_readers

abbrev pub get_readers_of_channel : ChannelManager → ℕ → List Role
get_readers_of_channel m key = search_key key m.channel_readers

abbrev pub get_flow_direction : ChannelManager → Key → Key → Option FlowDirection
get_flow_direction m lhs rhs = get_direction_of m.node_graph lhs rhs

-- The loops of `OnTopoModuleLeave`.
unfoldable pub leave_each : Manager → ℕ → RoleType → List Role → ChannelManager → ChannelManager
unfolding convert dispose_leave
leave_each o now role [] m = m
leave_each o now role (r ∷ rs) m =
    leave_each o now role rs (dispose_leave (convert o now r.attributes role opt_leave) m)

abbrev pub of_process : Key → ℕ → RoleAttributes
of_process host_name process_id = record {
  host_name = some host_name;
  process_id = some process_id;
  node_name = none;
  node_id = none;
  channel_name = none;
  channel_id = none;
  id = none;
  service_name = none;
  service_id = none;
}

unfoldable pub on_topo_module_leave : Manager → ℕ → Key → ℕ → ChannelManager → ChannelManager
unfolding leave_each search_matching
on_topo_module_leave o now host_name process_id m =
    let attr = of_process host_name process_id in
    let writers = search_matching attr m.channel_writers in
    let readers = search_matching attr m.channel_readers in
    if o.is_discovery_started
    then leave_each o now role_reader readers (leave_each o now role_writer writers m)
    else m
