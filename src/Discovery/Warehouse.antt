-- ===== src/Discovery/Warehouse.antt =====
-- cyber/service_discovery/container: the stores of roles under 64-bit keys, one role for a key or
-- several. A shared pointer to a role is the role; each function holds the lock of its warehouse.
pub mod Multi
pub mod Single
pub mod Removal
use cyber_rt_standalone_r.Prelude.{
  ℕ, List, [], ◌∷◌, Bool, true, false, Option, some, none, if◌then◌else◌,
}
use cyber_rt_standalone_r.Discovery.Role.{RoleAttributes, Role, match}

-- The entries of a map, in the order that it iterates in.
abbrev pub RoleMap : Type 0
RoleMap = List (ℕ × Role)

-- The loop of `Remove(target_attr)`.
unfoldable pub remove_matching : RoleAttributes → RoleMap → RoleMap
remove_matching target [] = []
remove_matching target ((k, r) ∷ roles) =
    if match r target then remove_matching target roles else (k, r) ∷ remove_matching target roles

-- The loop of `Search(target_attr, &role)`.
unfoldable pub search_first : RoleAttributes → RoleMap → Option Role
search_first target [] = none
search_first target ((k, r) ∷ roles) = if match r target then some r else search_first target roles

-- The loop of `Search(target_attr, &roles)`: what it appends.
unfoldable pub search_matching : RoleAttributes → RoleMap → List Role
search_matching target [] = []
search_matching target ((k, r) ∷ roles) =
    if match r target then r ∷ search_matching target roles else search_matching target roles

-- What a search that fills a vector returns: whether it appended anything.
abbrev pub is_found : {A : Type 0} → List A → Bool
is_found [] = false
is_found (x ∷ xs) = true

-- A call on a warehouse that changes it.
pub data Op : Type 0 where
  add : ℕ → Role → Bool → Op
  clear : Op
  remove_key : ℕ → Op
  remove_role : ℕ → Role → Op
  remove_all : RoleAttributes → Op
