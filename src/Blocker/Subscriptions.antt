-- ===== src/Blocker/Subscriptions.antt =====
-- Who is called when a message is published.
use cyber_rt_standalone_r.Prelude.{
  ◌≡◌, refl, Bool, true, false, not, Option, some, none, if◌then◌else◌, arith,
}
use cyber_rt_standalone_r.Discovery.Keys.{
  Key, key_eq, key_eq_iff, find, has, find-assign, find-erase,
}
use cyber_rt_standalone_r.Blocker.{Blocker, subscribed, subscribe, unsubscribe}

-- The first callback under an id stays.
abbrev pub first_of : {C : Type 0} → Option C → C → Option C
first_of none c = some c
first_of (some d) c = some d

find-subscribed :
    {T C : Type 0} (taken : Bool) (i j : Key) (c : C) (b : Blocker T C)
    → taken ≡ has i b.published_callbacks
    → (find j (subscribed taken i c b).1.published_callbacks ≡ (
        if key_eq i j
        then first_of (find j b.published_callbacks) c
        else find j b.published_callbacks))
      × ((subscribed taken i c b).0 ≡ not taken)
find-subscribed true i j c b h = (ground (arith, h, key_eq_iff i j), refl)
find-subscribed false i j c b h =
    (ground (arith, h, key_eq_iff i j, find-assign i j c b.published_callbacks), refl)

-- `Subscribe` puts the callback under its id unless the id is taken, and returns whether it did;
-- `Unsubscribe` takes away the one under its id, and returns whether there was one; neither touches another id.
pub subscribe-unsubscribe :
    {T C : Type 0} (i j : Key) (c : C) (b : Blocker T C)
    → (find j (subscribe i c b).1.published_callbacks ≡ (
        if key_eq i j
        then first_of (find j b.published_callbacks) c
        else find j b.published_callbacks))
      × ((subscribe i c b).0 ≡ not (has i b.published_callbacks))
      × (find j (unsubscribe i b).1.published_callbacks
          ≡ (if key_eq i j then none else find j b.published_callbacks))
      × ((unsubscribe i b).0 ≡ has i b.published_callbacks)
unfolding subscribe unsubscribe
subscribe-unsubscribe i j c b =
    let (p, q) = find-subscribed (has i b.published_callbacks) i j c b refl in
    (p, q, find-erase i j b.published_callbacks, refl)
