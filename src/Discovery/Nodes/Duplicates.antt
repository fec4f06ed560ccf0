-- ===== src/Discovery/Nodes/Duplicates.antt =====
-- What happens when two nodes have one id.
use cyber_rt_standalone_r.Prelude.{Bool, false, ◌&&◌, ltb, Option, some, none, ◌==◌, if◌then◌else◌}
use cyber_rt_standalone_r.Discovery.Keys.{key_eq}
use cyber_rt_standalone_r.Discovery.Role.{number, text, Role}
use cyber_rt_standalone_r.Discovery.Manager.{Manager}

-- Of a node that joins and the one that is known, the one that stays: the older by its time stamp, and the
-- known one on a tie.
abbrev pub elder : Role → Option Role → Role
elder node none = node
elder node (some existing) = if ltb node.timestamp_ns existing.timestamp_ns then node else existing

abbrev pub younger : Role → Role → Role
younger node existing = if ltb node.timestamp_ns existing.timestamp_ns then existing else node

-- Whether the other one is of this process: its process id is that of the manager, on the same host.
abbrev pub dooms : Manager → Role → Option Role → Bool
dooms o node none = false
dooms o node (some existing) =
    let r = younger node existing in
    number r.attributes.process_id == o.process_id
    && key_eq (text r.attributes.host_name) o.host_name
