-- ===== src/Discovery/Manager.antt =====
-- cyber/service_discovery/specific_manager/manager.cc: how a change of the topology enters a manager,
-- from its own process or from the network, and leaves it. The RTPS publisher, the parser and the
-- printer of messages are parameters.
pub mod Replicas
use cyber_rt_standalone_r.Prelude.{
  ℕ, List, [], ◌∷◌, Bool, true, false, ◌&&◌, ◌||◌, not, Option, some, none, ◌==◌, if◌then◌else◌,
}
use cyber_rt_standalone_r.Discovery.Keys.{Key, key_eq}
use cyber_rt_standalone_r.Discovery.Role.{RoleAttributes, number, text}

pub data OperateType : Type 0 where
  opt_join opt_leave : OperateType

pub data RoleType : Type 0 where
  role_node role_writer role_reader role_server role_client role_participant : RoleType

-- The change type is that of the manager, and is left out.
pub record ChangeMsg : Type 0 where
  pub timestamp : ℕ
  pub operate_type : OperateType
  pub role_type : RoleType
  pub role_attr : RoleAttributes

pub record Manager : Type 0 where
  pub is_shutdown : Bool
  pub is_discovery_started : Bool
  pub host_name : Key
  pub process_id : ℕ
  pub has_publisher : Bool

abbrev pub or_else : {A : Type 0} → Option A → A → Option A
or_else none a = some a
or_else (some b) a = some b

-- `Convert`, at the time `now`.
unfoldable pub convert : Manager → ℕ → RoleAttributes → RoleType → OperateType → ChangeMsg
convert m now attr role opt = record {
  timestamp = now;
  operate_type = opt;
  role_type = role;
  role_attr = record attr {
    host_name = or_else attr.host_name m.host_name;
    process_id = or_else attr.process_id m.process_id;
  };
}

unfoldable pub is_from_same_process : Manager → ChangeMsg → Bool
is_from_same_process m msg =
    number msg.role_attr.process_id == m.process_id
    && key_eq (text msg.role_attr.host_name) m.host_name

-- `serialize` and `write` say what the printer and the publisher do with a message.
module _ (serialize : ChangeMsg → Option Key) (write : Key → Bool) where
  -- What is written, and what is returned.
  abbrev pub write_out : Bool → Option Key → List Key × Bool
  write_out has_publisher none = ([], false)
  write_out true (some str) = (str ∷ [], write str)
  write_out false (some str) = ([], true)

  unfoldable pub publish : Manager → ChangeMsg → List Key × Bool
  publish m msg =
      if m.is_discovery_started then write_out m.has_publisher (serialize msg) else ([], false)

  -- The derived class: which roles it allows, what it asks of the attributes, what it does.
  module _ {S : Type 0} (allowed : RoleType → Bool) (check : RoleAttributes → Bool)
      (dispose : ChangeMsg → S → S) where
    abbrev pub refuses : Manager → RoleAttributes → RoleType → Bool
    refuses m attr role = m.is_shutdown || not (allowed role) || not (check attr)

    abbrev pub change : Manager → Bool → ChangeMsg → S → List Key × (Bool × S)
    change m need_publish msg s =
        let (out, result) = if need_publish then publish m msg else ([], true) in
        (out, (result, dispose msg s))

    -- `Join` and `Leave`: what is written, what is returned and the new state. No manager overrides
    -- `NeedPublish`, which is true.
    unfoldable pub join : Manager → ℕ → Bool → RoleAttributes → RoleType → S → List Key × (Bool × S)
    unfolding convert publish
    join m now need_publish attr role s =
        if refuses m attr role
        then ([], (false, s))
        else change m need_publish (convert m now attr role opt_join) s

    unfoldable pub leave : Manager → ℕ → RoleAttributes → RoleType → S → List Key × (Bool × S)
    unfolding convert publish
    leave m now attr role s =
        if refuses m attr role
        then ([], (false, s))
        else change m true (convert m now attr role opt_leave) s

    abbrev pub accept : Manager → Option ChangeMsg → S → S
    accept m none s = s
    accept m (some msg) s =
        if is_from_same_process m msg || not (check msg.role_attr) then s else dispose msg s

    -- `OnRemoteChange`, with a parser of messages.
    unfoldable pub on_remote_change : (Key → Option ChangeMsg) → Manager → Key → S → S
    unfolding is_from_same_process
    on_remote_change parse m msg_str s = if m.is_shutdown then s else accept m (parse msg_str) s
