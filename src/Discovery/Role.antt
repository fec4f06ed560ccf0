-- ===== src/Discovery/Role.antt =====
-- cyber/service_discovery/role/role.cc: a member of the network, by the attributes that `Match` reads.
pub mod Match
use cyber_rt_standalone_r.Prelude.{
  ℕ, Bool, true, false, ◌&&◌, not, Option, some, none, ◌==◌, if◌then◌else◌, ltb, [],
}
use cyber_rt_standalone_r.Discovery.Keys.{Key, key_eq}

-- The optional fields of `proto::RoleAttributes` that role.cc and the managers read, but for the message
-- type and descriptor. A process id is an `int32` as its bit pattern, since it is only compared.
pub record RoleAttributes : Type 0 where
  pub host_name : Option Key
  pub process_id : Option ℕ
  pub node_name : Option Key
  pub node_id : Option ℕ
  pub channel_name : Option Key
  pub channel_id : Option ℕ
  pub id : Option ℕ
  pub service_name : Option Key
  pub service_id : Option ℕ

-- The getter of an optional field, with the default of its type.
abbrev pub number : Option ℕ → ℕ
number none = 0
number (some n) = n

abbrev pub text : Option Key → Key
text none = []
text (some s) = s

-- `target_attr.has_f() && target_attr.f() != attributes_.f()`.
abbrev pub differs : Option ℕ → Option ℕ → Bool
differs none o = false
differs (some n) o = not (n == number o)

abbrev pub differs_text : Option Key → Option Key → Bool
differs_text none o = false
differs_text (some s) o = not (key_eq s (text o))

-- Which class the object is of: `RoleBase`, `RoleWriter` (also a reader), `RoleServer` (also a client).
pub data Kind : Type 0 where
  base writer server : Kind

pub record Role : Type 0 where
  pub kind : Kind
  pub attributes : RoleAttributes
  pub timestamp_ns : ℕ

unfoldable pub match_base : RoleAttributes → RoleAttributes → Bool
match_base a target =
    if differs target.node_id a.node_id
    then false
    else if differs target.process_id a.process_id
    then false
    else if differs_text target.host_name a.host_name
    then false
    else true

unfoldable pub match_writer : RoleAttributes → RoleAttributes → Bool
unfolding match_base
match_writer a target =
    if differs target.channel_id a.channel_id
    then false
    else if differs target.id a.id
    then false
    else match_base a target

unfoldable pub match_server : RoleAttributes → RoleAttributes → Bool
unfolding match_base
match_server a target =
    if differs target.service_id a.service_id then false else match_base a target

abbrev pub match_as : Kind → RoleAttributes → RoleAttributes → Bool
match_as base a target = match_base a target
match_as writer a target = match_writer a target
match_as server a target = match_server a target

-- The virtual `Match`.
unfoldable pub match : Role → RoleAttributes → Bool
unfolding match_writer match_server match_base
match r target = match_as r.kind r.attributes target

abbrev pub is_earlier_than : Role → Role → Bool
is_earlier_than r other = ltb r.timestamp_ns other.timestamp_ns
