-- ===== src/Blocker/Manager.antt =====
-- cyber/blocker/blocker_manager.h and blocker_manager.cc: the blockers of a process by channel. A blocker
-- of another message type is one with another tag, for which the cast gives a null pointer; blockers
-- are shared, so that a call on one changes it in the map.
use cyber_rt_standalone_r.Prelude.{
  ℕ, List, [], ◌∷◌, Bool, true, false, Option, some, none, if◌then◌else◌, ◌==◌,
}
use cyber_rt_standalone_r.Discovery.Keys.{Key, find, assign}
use cyber_rt_standalone_r.Blocker.{Blocker, publish, subscribe, unsubscribe, observe}

pub record Typed (T C : Type 0) : Type 0 where
  pub tag : ℕ
  pub blocker : Blocker T C

-- `blockers_`.
abbrev pub BlockerMap : Type 0 → Type 0 → Type 0
BlockerMap T C = List (Key × Typed T C)

-- The capacity that `BlockerAttr` gives a channel by itself.
abbrev pub default_capacity : ℕ
default_capacity = 10

module _ {T C : Type 0} where
  -- The constructor of Blocker.
  abbrev pub new_blocker : ℕ → Key → Blocker T C
  new_blocker capacity channel_name = record {
    capacity = capacity;
    channel_name = channel_name;
    observed_msg_queue = [];
    published_msg_queue = [];
    published_callbacks = [];
  }

  -- `dynamic_pointer_cast`.
  abbrev pub cast : ℕ → Typed T C → Option (Blocker T C)
  cast tag t = if t.tag == tag then some t.blocker else none

  abbrev pub cast_found : ℕ → Option (Typed T C) → Option (Blocker T C)
  cast_found tag none = none
  cast_found tag (some t) = cast tag t

  unfoldable pub get_blocker : ℕ → Key → BlockerMap T C → Option (Blocker T C)
  get_blocker tag channel_name m = cast_found tag (find channel_name m)

  -- The blocker as a call has left it.
  abbrev pub keep : ℕ → Key → Blocker T C → BlockerMap T C → BlockerMap T C
  keep tag channel_name b m = assign channel_name (record { tag = tag; blocker = b }) m

  -- By what `find` gives.
  abbrev pub get_or_create :
      ℕ → ℕ → Key → Option (Typed T C) → BlockerMap T C → Option (Blocker T C) × BlockerMap T C
  get_or_create tag capacity channel_name (some t) m = (cast tag t, m)
  get_or_create tag capacity channel_name none m =
      let b = new_blocker capacity channel_name in (some b, keep tag channel_name b m)

  unfoldable pub get_or_create_blocker :
      ℕ → ℕ → Key → BlockerMap T C → Option (Blocker T C) × BlockerMap T C
  get_or_create_blocker tag capacity channel_name m =
      get_or_create tag capacity channel_name (find channel_name m) m

  abbrev pub publish_on :
      ℕ → Key → T → Option (Blocker T C) → BlockerMap T C → Bool × List (C × T) × BlockerMap T C
  publish_on tag channel_name msg none m = (false, [], m)
  publish_on tag channel_name msg (some b) m =
      let (cs, b') = publish msg b in (true, cs, keep tag channel_name b' m)

  unfoldable pub publish_channel :
      ℕ → Key → T → BlockerMap T C → Bool × List (C × T) × BlockerMap T C
  unfolding get_or_create_blocker
  publish_channel tag channel_name msg m =
      let (b, m') = get_or_create_blocker tag default_capacity channel_name m in
      publish_on tag channel_name msg b m'

  abbrev pub subscribe_on :
      ℕ → Key → Key → C → Option (Blocker T C) → BlockerMap T C → Bool × BlockerMap T C
  subscribe_on tag channel_name callback_id callback none m = (false, m)
  subscribe_on tag channel_name callback_id callback (some b) m =
      let (ok, b') = subscribe callback_id callback b in (ok, keep tag channel_name b' m)

  unfoldable pub subscribe_channel : ℕ → Key → ℕ → Key → C → BlockerMap T C → Bool × BlockerMap T C
  unfolding get_or_create_blocker
  subscribe_channel tag channel_name capacity callback_id callback m =
      let (b, m') = get_or_create_blocker tag capacity channel_name m in
      subscribe_on tag channel_name callback_id callback b m'

  abbrev pub unsubscribe_on :
      ℕ → Key → Key → Option (Blocker T C) → BlockerMap T C → Bool × BlockerMap T C
  unsubscribe_on tag channel_name callback_id none m = (false, m)
  unsubscribe_on tag channel_name callback_id (some b) m =
      let (ok, b') = unsubscribe callback_id b in (ok, keep tag channel_name b' m)

  unfoldable pub unsubscribe_channel : ℕ → Key → Key → BlockerMap T C → Bool × BlockerMap T C
  unfolding get_blocker
  unsubscribe_channel tag channel_name callback_id m =
      unsubscribe_on tag channel_name callback_id (get_blocker tag channel_name m) m

  -- `Observe` of all blockers; `Reset` empties the map.
  unfoldable pub observe_all : BlockerMap T C → BlockerMap T C
  observe_all [] = []
  observe_all ((k, t) ∷ m) = (k, record t { blocker = observe t.blocker }) ∷ observe_all m

  abbrev pub reset_all : BlockerMap T C → BlockerMap T C
  reset_all m = []
