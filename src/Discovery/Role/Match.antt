-- ===== src/Discovery/Role/Match.antt =====
-- What it means for a role to match.
use cyber_rt_standalone_r.Prelude.{
  ℕ, ◌≡◌, ◌↔◌, refl, sym, Bool, true, false, Option, some, none, if◌then◌else◌, arith,
}
use cyber_rt_standalone_r.Discovery.Keys.{Key, key_eq_iff}
use cyber_rt_standalone_r.Discovery.Role.{
  RoleAttributes, number, text, differs, differs_text, Kind, base, writer, server, Role, match,
  match_base, match_writer, match_server, match_as,
}

true_ne_false : ¬ (true ≡ false)
true_ne_false e = absurd cc

-- A field that the target sets has that value in the role, where an unset one is the default.
abbrev pub Agrees : Option ℕ → Option ℕ → Type 0
Agrees none own = Unit
Agrees (some n) own = number own ≡ n

abbrev pub AgreesText : Option Key → Option Key → Type 0
AgreesText none own = Unit
AgreesText (some s) own = text own ≡ s

abbrev pub FitsBase : RoleAttributes → RoleAttributes → Type 0
FitsBase a target =
    Agrees target.node_id a.node_id
    × (Agrees target.process_id a.process_id × AgreesText target.host_name a.host_name)

-- All that a target says of a role of its kind is so.
abbrev pub Fits : Kind → RoleAttributes → RoleAttributes → Type 0
Fits base a target = FitsBase a target
Fits writer a target =
    Agrees target.channel_id a.channel_id × (Agrees target.id a.id × FitsBase a target)
Fits server a target = Agrees target.service_id a.service_id × FitsBase a target

Agrees_lem : (t o : Option ℕ) → (differs t o ≡ false) ↔ Agrees t o
Agrees_lem none o = (λ e. tt, λ u. refl)
Agrees_lem (some n) o = (λ e. ground (arith, e), λ e. ground (arith, e))

AgreesText_lem : (t o : Option Key) → (differs_text t o ≡ false) ↔ AgreesText t o
AgreesText_lem none o = (λ e. tt, λ u. refl)
AgreesText_lem (some s) o = (
  λ e. sym ((key_eq_iff s (text o)).0 (ground (arith, e))),
  λ e. ground (arith, (key_eq_iff s (text o)).1 (sym e)),
)

-- One test of a chain: it passes exactly if its field agrees.
guard_lem :
    (P Q : Type 0) (a b : Bool)
    → ((a ≡ false) ↔ P)
    → ((b ≡ true) ↔ Q)
    → ((if a then false else b) ≡ true) ↔ (P × Q)
guard_lem P Q true b p q = (λ e. absurd cc, λ t. absurd (true_ne_false (p.1 t.0)))
guard_lem P Q false b p q = (λ e. (p.0 refl, q.0 e), λ t. q.1 t.1)

last_lem : (P : Type 0) (a : Bool) → ((a ≡ false) ↔ P) → ((if a then false else true) ≡ true) ↔ P
last_lem P true p = (λ e. absurd cc, λ x. absurd (true_ne_false (p.1 x)))
last_lem P false p = (λ e. p.0 refl, λ x. refl)

match_base-Fits : (a t : RoleAttributes) → (match_base a t ≡ true) ↔ FitsBase a t
unfolding match_base
match_base-Fits a t =
    guard_lem _ _ (differs t.node_id a.node_id) _ (Agrees_lem t.node_id a.node_id) (
      guard_lem _ _ (differs t.process_id a.process_id) _ (Agrees_lem t.process_id a.process_id) (
        last_lem _ (differs_text t.host_name a.host_name) (AgreesText_lem t.host_name a.host_name)))

match_as-Fits : (k : Kind) (a t : RoleAttributes) → (match_as k a t ≡ true) ↔ Fits k a t
unfolding match_writer match_server
match_as-Fits base a t = match_base-Fits a t
match_as-Fits writer a t =
    guard_lem _ _ (differs t.channel_id a.channel_id) _ (Agrees_lem t.channel_id a.channel_id)
      (guard_lem _ _ (differs t.id a.id) _ (Agrees_lem t.id a.id) (match_base-Fits a t))
match_as-Fits server a t =
    guard_lem _ _ (differs t.service_id a.service_id) _ (Agrees_lem t.service_id a.service_id)
      (match_base-Fits a t)

-- `Match` is true exactly if what the target sets of the following is so of the role: the node id, the
-- process id and the host of any role, the channel id and the id of a writer or reader, the service id
-- of a server or client. It looks at no other field: names of nodes, channels and services are ignored.
pub match-Fits :
    (r : Role) (target : RoleAttributes) → (match r target ≡ true) ↔ Fits r.kind r.attributes target
unfolding match
match-Fits r target = match_as-Fits r.kind r.attributes target

Agrees-self : (o : Option ℕ) → Agrees o o
Agrees-self none = tt
Agrees-self (some n) = refl

AgreesText-self : (o : Option Key) → AgreesText o o
AgreesText-self none = tt
AgreesText-self (some s) = refl

FitsBase-self : (a : RoleAttributes) → FitsBase a a
FitsBase-self a = (Agrees-self a.node_id, (Agrees-self a.process_id, AgreesText-self a.host_name))

Fits-self : (k : Kind) (a : RoleAttributes) → Fits k a a
Fits-self base a = FitsBase-self a
Fits-self writer a = (Agrees-self a.channel_id, (Agrees-self a.id, FitsBase-self a))
Fits-self server a = (Agrees-self a.service_id, FitsBase-self a)

-- Every role matches its own attributes.
pub match_self : (r : Role) → match r r.attributes ≡ true
match_self r = (match-Fits r r.attributes).1 (Fits-self r.kind r.attributes)
