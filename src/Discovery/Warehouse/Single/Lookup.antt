-- ===== src/Discovery/Warehouse/Single/Lookup.antt =====
-- The store of one role under a key as a partial function from keys to roles.
use cyber_rt_standalone_r.Prelude.{
  ℕ, ◌≡◌, refl, ap, ◌∙◌, List, [], ◌∷◌, Bool, true, false, ◌&&◌, not, Option, some, none, ◌==◌,
  if◌then◌else◌, arith,
}
use cyber_rt_standalone_r.Discovery.Role.{RoleAttributes, Role, match}
use cyber_rt_standalone_r.Discovery.Warehouse.{
  RoleMap, remove_matching, Op, add, clear, remove_key, remove_role, remove_all,
}
use cyber_rt_standalone_r.Discovery.Warehouse.Single.{
  search_role, is_some, put, added, try_put, drop_key, drop_found, drop_role, perform, perform_all,
}

-- No two entries have the same key.
abbrev pub Unique : RoleMap → Type 0
Unique [] = Unit
Unique ((k, r) ∷ roles) = (search_role k roles ≡ none) × Unique roles

-- The abstract store: the role under each key.
abbrev pub unless_matches : RoleAttributes → Option Role → Option Role
unless_matches target none = none
unless_matches target (some r) = if match r target then none else some r

abbrev pub expect : Op → (ℕ → Option Role) → ℕ → Option Role
expect (add key role ignore) held k =
    if key == k then if not ignore && is_some (held k) then held k else some role else held k
expect clear held k = none
expect (remove_key key) held k = if key == k then none else held k
expect (remove_role key role) held k =
    if key == k then unless_matches role.attributes (held k) else held k
expect (remove_all target) held k = unless_matches target (held k)

abbrev pub expect_all : List Op → (ℕ → Option Role) → ℕ → Option Role
expect_all [] held = held
expect_all (o ∷ os) held = expect_all os (expect o held)

pub search_role-put :
    (key k : ℕ) (role : Role) (roles : RoleMap)
    → search_role k (put key role roles) ≡ (if key == k then some role else search_role k roles)
unfolding search_role put
search_role-put key k role [] = ground arith
search_role-put key k role ((j, r) ∷ roles) = ground (arith, search_role-put key k role roles)

search_role-drop_key :
    (key k : ℕ) (roles : RoleMap)
    → search_role k (drop_key key roles) ≡ (if key == k then none else search_role k roles)
unfolding search_role drop_key
search_role-drop_key key k [] = ground arith
search_role-drop_key key k ((j, r) ∷ roles) = ground (arith, search_role-drop_key key k roles)

search_role-remove_matching :
    (k : ℕ) (t : RoleAttributes) (roles : RoleMap)
    → Unique roles
    → search_role k (remove_matching t roles) ≡ unless_matches t (search_role k roles)
unfolding search_role remove_matching
search_role-remove_matching k t [] u = refl
search_role-remove_matching k t ((j, r) ∷ roles) u =
    ground (arith, u, search_role-remove_matching k t roles u.1)

Unique-put : (key : ℕ) (role : Role) (roles : RoleMap) → Unique roles → Unique (put key role roles)
unfolding search_role put
Unique-put key role [] u = (refl, tt)
Unique-put key role ((j, r) ∷ roles) u =
    ground (arith, u, Unique-put key role roles u.1, search_role-put key j role roles)

Unique-drop_key : (key : ℕ) (roles : RoleMap) → Unique roles → Unique (drop_key key roles)
unfolding drop_key
Unique-drop_key key [] u = tt
Unique-drop_key key ((j, r) ∷ roles) u =
    ground (arith, u, Unique-drop_key key roles u.1, search_role-drop_key key j roles)

Unique-remove_matching :
    (t : RoleAttributes) (roles : RoleMap) → Unique roles → Unique (remove_matching t roles)
unfolding remove_matching
Unique-remove_matching t [] u = tt
Unique-remove_matching t ((j, r) ∷ roles) u =
    ground (arith, u, Unique-remove_matching t roles u.1, search_role-remove_matching j t roles u.1)

-- Both outcomes of the test of `Add`.
search_role-added :
    (key k : ℕ) (role : Role) (ignore refuses : Bool) (roles : RoleMap)
    → refuses ≡ (not ignore && is_some (search_role key roles))
    → search_role k (added refuses key role roles).1
      ≡ expect (add key role ignore) (λ j. search_role j roles) k
search_role-added key k role ignore true roles h = ground (arith, h)
search_role-added key k role ignore false roles h =
    ground (arith, h, search_role-put key k role roles)

Unique-added :
    (key : ℕ) (role : Role) (refuses : Bool) (roles : RoleMap)
    → Unique roles
    → Unique (added refuses key role roles).1
Unique-added key role true roles u = u
Unique-added key role false roles u = Unique-put key role roles u

-- Both outcomes of the search of `Remove(key, role)`.
search_role-drop_found :
    (key k : ℕ) (t : RoleAttributes) (roles : RoleMap) (o : Option Role)
    → o ≡ search_role key roles
    → search_role k (drop_found key t roles o)
      ≡ (if key == k then unless_matches t (search_role k roles) else search_role k roles)
search_role-drop_found key k t roles none h = ground (arith, h)
search_role-drop_found key k t roles (some r) h =
    ground (arith, h, search_role-drop_key key k roles)

Unique-drop_found :
    (key : ℕ) (t : RoleAttributes) (roles : RoleMap) (o : Option Role)
    → Unique roles
    → Unique (drop_found key t roles o)
Unique-drop_found key t roles none u = u
Unique-drop_found key t roles (some r) u = ground (arith, Unique-drop_key key roles u, u)

Unique-perform : (o : Op) (roles : RoleMap) → Unique roles → Unique (perform o roles)
unfolding perform try_put drop_role
Unique-perform (add key role ignore) roles u = Unique-added key role _ roles u
Unique-perform clear roles u = tt
Unique-perform (remove_key key) roles u = Unique-drop_key key roles u
Unique-perform (remove_role key role) roles u =
    Unique-drop_found key role.attributes roles (search_role key roles) u
Unique-perform (remove_all target) roles u = Unique-remove_matching target roles u

search_role-perform :
    (o : Op) (roles : RoleMap) (k : ℕ)
    → Unique roles
    → search_role k (perform o roles) ≡ expect o (λ j. search_role j roles) k
unfolding perform try_put drop_role search_role
search_role-perform (add key role ignore) roles k u =
    search_role-added key k role ignore (not ignore && is_some (search_role key roles)) roles refl
search_role-perform clear roles k u = refl
search_role-perform (remove_key key) roles k u = search_role-drop_key key k roles
search_role-perform (remove_role key role) roles k u =
    search_role-drop_found key k role.attributes roles (search_role key roles) refl
search_role-perform (remove_all target) roles k u = search_role-remove_matching k target roles u

-- On a store with one entry for a key, after any calls there is still one entry for a key, and what
-- `Search(key, &role)` gives is what the abstract store holds under the key.
pub search_role-perform_all :
    (os : List Op) (roles : RoleMap) (k : ℕ)
    → Unique roles
    → Unique (perform_all os roles)
      × (search_role k (perform_all os roles) ≡ expect_all os (λ j. search_role j roles) k)
unfolding perform_all
search_role-perform_all [] roles k u = (u, refl)
search_role-perform_all (o ∷ os) roles k u =
    let (u', e) = search_role-perform_all os (perform o roles) k (Unique-perform o roles u) in
    (u', e ∙ ap (λ f. expect_all os f k) (λ i j. search_role-perform o roles j u i))
