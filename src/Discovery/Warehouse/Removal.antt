-- ===== src/Discovery/Warehouse/Removal.antt =====
-- Removal and search by attributes.
use cyber_rt_standalone_r.Prelude.{◌+◌, ◌≡◌, refl, ◌∙◌, ap, [], ◌∷◌, none, length, get_elem?, arith}
use cyber_rt_standalone_r.Discovery.Role.{RoleAttributes}
use cyber_rt_standalone_r.Discovery.Warehouse.{
  RoleMap, remove_matching, search_first, search_matching,
}

nothing_left :
    (t : RoleAttributes) (roles : RoleMap) → search_matching t (remove_matching t roles) ≡ []
unfolding search_matching remove_matching
nothing_left t [] = refl
nothing_left t ((k, r) ∷ roles) = ground (arith, nothing_left t roles)

counted :
    (t : RoleAttributes) (roles : RoleMap)
    → length roles ≡ length (remove_matching t roles) + length (search_matching t roles)
unfolding search_matching remove_matching
counted t [] = refl
counted t ((k, r) ∷ roles) = ground (arith, counted t roles)

first_found :
    (t : RoleAttributes) (roles : RoleMap)
    → search_first t roles ≡ get_elem? (search_matching t roles) 0
unfolding search_matching search_first
first_found t [] = refl
first_found t ((k, r) ∷ roles) = ground (arith, first_found t roles)

-- The search for one role gives the first that the search for all gives; removal takes away as many
-- entries as the search finds, and a search with the same attributes then finds no role.
pub remove_matching-search_matching :
    (t : RoleAttributes) (roles : RoleMap)
    → (search_first t roles ≡ get_elem? (search_matching t roles) 0)
      × (length roles ≡ length (remove_matching t roles) + length (search_matching t roles))
      × (search_matching t (remove_matching t roles) ≡ [])
      × (search_first t (remove_matching t roles) ≡ none)
remove_matching-search_matching t roles = (
  first_found t roles,
  counted t roles,
  nothing_left t roles,
  first_found t (remove_matching t roles) ∙ ap (λ xs. get_elem? xs 0) (nothing_left t roles),
)
