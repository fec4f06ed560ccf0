-- ===== src/Discovery/Warehouse/Multi/Held.antt =====
-- The store of several roles under a key as a function from keys to lists of roles.
use cyber_rt_standalone_r.Prelude.{
  ℕ, ◌≡◌, refl, ap, ◌∙◌, List, [], ◌∷◌, ◌++◌, Bool, true, false, ◌&&◌, not, ◌==◌, if◌then◌else◌,
  arith, tally,
}
use cyber_rt_standalone_r.Discovery.Role.{RoleAttributes, Role, match}
use cyber_rt_standalone_r.Discovery.Warehouse.{
  RoleMap, remove_matching, is_found, Op, add, clear, remove_key, remove_role, remove_all,
}
use cyber_rt_standalone_r.Discovery.Warehouse.Multi.{
  search_key, added, try_add, erase_key, erase_role, apply, run,
}

-- The abstract store: the roles under each key.
abbrev pub without : RoleAttributes → List Role → List Role
without target [] = []
without target (r ∷ rs) = if match r target then without target rs else r ∷ without target rs

abbrev pub expect : Op → (ℕ → List Role) → ℕ → List Role
expect (add key role ignore) held k =
    if key == k
    then if not ignore && is_found (held k) then held k else held k ++ role ∷ []
    else held k
expect clear held k = []
expect (remove_key key) held k = if key == k then [] else held k
expect (remove_role key role) held k = if key == k then without role.attributes (held k) else held k
expect (remove_all target) held k = without target (held k)

abbrev pub expect_all : List Op → (ℕ → List Role) → ℕ → List Role
expect_all [] held = held
expect_all (o ∷ os) held = expect_all os (expect o held)

search_key_nil : (k : ℕ) → search_key k [] ≡ []
unfolding search_key
search_key_nil k = refl

pub search_key-append :
    (key k : ℕ) (role : Role) (roles : RoleMap)
    → search_key k (roles ++ (key, role) ∷ [])
      ≡ (if key == k then search_key k roles ++ role ∷ [] else search_key k roles)
unfolding search_key
search_key-append key k role [] = ground arith
search_key-append key k role ((j, r) ∷ roles) = ground (arith, search_key-append key k role roles)

search_key-erase_key :
    (key k : ℕ) (roles : RoleMap)
    → search_key k (erase_key key roles) ≡ (if key == k then [] else search_key k roles)
unfolding search_key erase_key
search_key-erase_key key k [] = ground arith
search_key-erase_key key k ((j, r) ∷ roles) = ground (arith, search_key-erase_key key k roles)

pub search_key-erase_role :
    (key k : ℕ) (t : RoleAttributes) (roles : RoleMap)
    → search_key k (erase_role key t roles)
      ≡ (if key == k then without t (search_key k roles) else search_key k roles)
unfolding search_key erase_role
search_key-erase_role key k t [] = ground arith
search_key-erase_role key k t ((j, r) ∷ roles) = ground (arith, search_key-erase_role key k t roles)

search_key-remove_matching :
    (k : ℕ) (t : RoleAttributes) (roles : RoleMap)
    → search_key k (remove_matching t roles) ≡ without t (search_key k roles)
unfolding search_key remove_matching
search_key-remove_matching k t [] = refl
search_key-remove_matching k t ((j, r) ∷ roles) =
    ground (arith, search_key-remove_matching k t roles)

-- Both outcomes of the test of `Add`.
added_lem :
    (key k : ℕ) (role : Role) (ignore refuses : Bool) (roles : RoleMap)
    → refuses ≡ (not ignore && is_found (search_key key roles))
    → search_key k (added refuses key role roles).1
      ≡ expect (add key role ignore) (λ j. search_key j roles) k
added_lem key k role ignore true roles h = ground (arith, h)
added_lem key k role ignore false roles h = ground (arith, h, search_key-append key k role roles)

search_key-try_add :
    (key k : ℕ) (role : Role) (ignore : Bool) (roles : RoleMap)
    → search_key k (try_add key role ignore roles).1
      ≡ expect (add key role ignore) (λ j. search_key j roles) k
unfolding try_add
search_key-try_add key k role ignore roles =
    added_lem key k role ignore (not ignore && is_found (search_key key roles)) roles refl

search_key-apply :
    (o : Op) (roles : RoleMap) (k : ℕ)
    → search_key k (apply o roles) ≡ expect o (λ j. search_key j roles) k
unfolding apply
search_key-apply (add key role ignore) roles k = search_key-try_add key k role ignore roles
search_key-apply clear roles k = search_key_nil k
search_key-apply (remove_key key) roles k = search_key-erase_key key k roles
search_key-apply (remove_role key role) roles k = search_key-erase_role key k role.attributes roles
search_key-apply (remove_all target) roles k = search_key-remove_matching k target roles

search_key-run :
    (os : List Op) (roles : RoleMap) (k : ℕ)
    → search_key k (run os roles) ≡ expect_all os (λ j. search_key j roles) k
unfolding run
search_key-run [] roles k = refl
search_key-run (o ∷ os) roles k =
    search_key-run os (apply o roles) k
    ∙ ap (λ f. expect_all os f k) (λ i j. search_key-apply o roles j i)

-- After any calls, `Search(key, &roles)` gives the roles that the abstract store holds under the key, each as
-- often and in an order that is left open: every sum over the one is that over the other.
pub tally-search_key-run :
    (f : Role → ℕ) (os : List Op) (roles : RoleMap) (k : ℕ)
    → tally f (search_key k (run os roles)) ≡ tally f (expect_all os (λ j. search_key j roles) k)
tally-search_key-run f os roles k = ap (tally f) (search_key-run os roles k)
