-- ===== src/Discovery/Warehouse/Single.antt =====
-- cyber/service_discovery/container/single_value_warehouse.cc: one role for a key.
pub mod Lookup
use cyber_rt_standalone_r.Prelude.{
  ℕ, ◌≡◌, refl, ap, List, [], ◌∷◌, ◌++◌, Bool, true, false, ◌&&◌, not, Option, some, none, ◌==◌,
  if◌then◌else◌, arith,
}
use cyber_rt_standalone_r.Discovery.Role.{RoleAttributes, Role, match}
use cyber_rt_standalone_r.Discovery.Warehouse.{
  RoleMap, remove_matching, Op, add, clear, remove_key, remove_role, remove_all,
}

-- `Search(key, &role)`.
unfoldable pub search_role : ℕ → RoleMap → Option Role
search_role key [] = none
search_role key ((k, r) ∷ roles) = if k == key then some r else search_role key roles

-- `roles_[key] = role`.
unfoldable pub put : ℕ → Role → RoleMap → RoleMap
put key role [] = (key, role) ∷ []
put key role ((k, r) ∷ roles) = if k == key then (k, role) ∷ roles else (k, r) ∷ put key role roles

abbrev pub is_some : Option Role → Bool
is_some none = false
is_some (some r) = true

-- What `Add` does, by whether it refuses, and whether it returns true.
abbrev pub added : Bool → ℕ → Role → RoleMap → Bool × RoleMap
added true key role roles = (false, roles)
added false key role roles = (true, put key role roles)

unfoldable pub try_put : ℕ → Role → Bool → RoleMap → Bool × RoleMap
unfolding search_role put
try_put key role ignore_if_exist roles =
    added (not ignore_if_exist && is_some (search_role key roles)) key role roles

-- `Remove(key)`.
unfoldable pub drop_key : ℕ → RoleMap → RoleMap
drop_key key [] = []
drop_key key ((k, r) ∷ roles) = if k == key then drop_key key roles else (k, r) ∷ drop_key key roles

-- `Remove(key, role)`, with what `find` gave.
abbrev pub drop_found : ℕ → RoleAttributes → RoleMap → Option Role → RoleMap
drop_found key target roles none = roles
drop_found key target roles (some r) = if match r target then drop_key key roles else roles

unfoldable pub drop_role : ℕ → RoleAttributes → RoleMap → RoleMap
unfolding search_role drop_key
drop_role key target roles = drop_found key target roles (search_role key roles)

unfoldable pub perform : Op → RoleMap → RoleMap
unfolding try_put drop_key drop_role remove_matching
perform (add key role ignore) roles = (try_put key role ignore roles).1
perform clear roles = []
perform (remove_key key) roles = drop_key key roles
perform (remove_role key role) roles = drop_role key role.attributes roles
perform (remove_all target) roles = remove_matching target roles

unfoldable pub perform_all : List Op → RoleMap → RoleMap
unfolding perform
perform_all [] roles = roles
perform_all (o ∷ os) roles = perform_all os (perform o roles)
