-- ===== src/Discovery/Warehouse/Multi.antt =====
-- cyber/service_discovery/container/multi_value_warehouse.cc: several roles under a key. The
-- container leaves open how those under one key are ordered; here it is as they were added.
pub mod Held
use cyber_rt_standalone_r.Prelude.{
  ℕ, ◌≡◌, refl, ap, List, [], ◌∷◌, ◌++◌, Bool, true, false, ◌&&◌, not, Option, some, none, ◌==◌,
  if◌then◌else◌, arith,
}
use cyber_rt_standalone_r.Discovery.Role.{RoleAttributes, Role, match}
use cyber_rt_standalone_r.Discovery.Warehouse.{
  RoleMap, remove_matching, is_found, Op, add, clear, remove_key, remove_role, remove_all,
}

-- `Search(key, &roles)`: what it appends of the range of the key.
unfoldable pub search_key : ℕ → RoleMap → List Role
search_key key [] = []
search_key key ((k, r) ∷ roles) =
    if k == key then r ∷ search_key key roles else search_key key roles

-- `Search(key)`.
abbrev pub has_key : ℕ → RoleMap → Bool
has_key key roles = is_found (search_key key roles)

-- What `Add` does, by whether it refuses, and whether it returns true.
abbrev pub added : Bool → ℕ → Role → RoleMap → Bool × RoleMap
added true key role roles = (false, roles)
added false key role roles = (true, roles ++ (key, role) ∷ [])

unfoldable pub try_add : ℕ → Role → Bool → RoleMap → Bool × RoleMap
unfolding search_key
try_add key role ignore_if_exist roles =
    added (not ignore_if_exist && has_key key roles) key role roles

-- `Remove(key)`.
unfoldable pub erase_key : ℕ → RoleMap → RoleMap
erase_key key [] = []
erase_key key ((k, r) ∷ roles) =
    if k == key then erase_key key roles else (k, r) ∷ erase_key key roles

-- `Remove(key, role)`.
unfoldable pub erase_role : ℕ → RoleAttributes → RoleMap → RoleMap
erase_role key target [] = []
erase_role key target ((k, r) ∷ roles) =
    if k == key && match r target
    then erase_role key target roles
    else (k, r) ∷ erase_role key target roles

unfoldable pub apply : Op → RoleMap → RoleMap
unfolding try_add erase_key erase_role remove_matching
apply (add key role ignore) roles = (try_add key role ignore roles).1
apply clear roles = []
apply (remove_key key) roles = erase_key key roles
apply (remove_role key role) roles = erase_role key role.attributes roles
apply (remove_all target) roles = remove_matching target roles

unfoldable pub run : List Op → RoleMap → RoleMap
unfolding apply
run [] roles = roles
run (o ∷ os) roles = run os (apply o roles)
