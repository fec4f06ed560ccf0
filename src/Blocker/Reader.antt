-- ===== src/Blocker/Reader.antt =====
-- cyber/blocker/intra_reader.h: a reader whose channel is a blocker of its own process. The time stamps
-- of OnMessage are left out: the callback that it subscribes is that of its user.
use cyber_rt_standalone_r.Prelude.{
  ℕ, List, [], ◌∷◌, Bool, true, false, Option, some, none, if◌then◌else◌,
}
use cyber_rt_standalone_r.Discovery.Keys.{Key}
use cyber_rt_standalone_r.Blocker.{
  Blocker, clear_observed, clear_published, observe, set_capacity, get_latest_observed_ptr,
  get_oldest_observed_ptr,
}
use cyber_rt_standalone_r.Blocker.Manager.{
  BlockerMap, get_blocker, keep, publish_channel, subscribe_channel, unsubscribe_channel,
}

pub record IntraReader (C : Type 0) : Type 0 where
  pub tag : ℕ
  pub channel_name : Key
  pub depth : ℕ
  pub node_name : Key
  pub msg_callback : C
  pub init : Bool

abbrev pub is_nil : {A : Type 0} → List A → Bool
is_nil [] = true
is_nil (x ∷ xs) = false

module _ {T C : Type 0} where
  abbrev pub init_reader :
      Bool → IntraReader C → BlockerMap T C → Bool × IntraReader C × BlockerMap T C
  init_reader true r m = (true, r, m)
  init_reader false r m =
      let (ok, m') = subscribe_channel r.tag r.channel_name r.depth r.node_name r.msg_callback m in
      (ok, record r { init = true }, m')

  -- `Init`.
  unfoldable pub start : IntraReader C → BlockerMap T C → Bool × IntraReader C × BlockerMap T C
  start r m = init_reader r.init r m

  abbrev pub shutdown_reader :
      Bool → IntraReader C → BlockerMap T C → IntraReader C × BlockerMap T C
  shutdown_reader false r m = (r, m)
  shutdown_reader true r m =
      (record r { init = false }, (unsubscribe_channel r.tag r.channel_name r.node_name m).1)

  unfoldable pub shutdown : IntraReader C → BlockerMap T C → IntraReader C × BlockerMap T C
  shutdown r m = shutdown_reader r.init r m

  -- A call on the reader's blocker, if there is one.
  abbrev pub on_blocker :
      IntraReader C
      → (Blocker T C → Blocker T C)
      → Option (Blocker T C)
      → BlockerMap T C
      → BlockerMap T C
  on_blocker r f none m = m
  on_blocker r f (some b) m = keep r.tag r.channel_name (f b) m

  abbrev pub blocker_of : IntraReader C → BlockerMap T C → Option (Blocker T C)
  blocker_of r m = get_blocker r.tag r.channel_name m

  pub clear_data : IntraReader C → BlockerMap T C → BlockerMap T C
  clear_data r m = on_blocker r (λ b. clear_published (clear_observed b)) (blocker_of r m) m

  unfoldable pub observe_reader : IntraReader C → BlockerMap T C → BlockerMap T C
  observe_reader r m = on_blocker r observe (blocker_of r m) m

  pub set_history_depth : ℕ → IntraReader C → BlockerMap T C → BlockerMap T C
  set_history_depth depth r m = on_blocker r (set_capacity depth) (blocker_of r m) m

  pub enqueue_reader : IntraReader C → T → BlockerMap T C → BlockerMap T C
  enqueue_reader r msg m = (publish_channel r.tag r.channel_name msg m).2

  -- What a getter returns without a blocker, or from it.
  abbrev pub from_blocker : {A : Type 0} → A → (Blocker T C → A) → Option (Blocker T C) → A
  from_blocker a f none = a
  from_blocker a f (some b) = f b

  unfoldable pub empty : IntraReader C → BlockerMap T C → Bool
  empty r m = from_blocker true (λ b. is_nil b.observed_msg_queue) (blocker_of r m)

  unfoldable pub has_received : IntraReader C → BlockerMap T C → Bool
  has_received r m =
      from_blocker false (λ b. if is_nil b.published_msg_queue then false else true)
        (blocker_of r m)

  unfoldable pub get_history_depth : IntraReader C → BlockerMap T C → ℕ
  get_history_depth r m = from_blocker 0 (λ b. b.capacity) (blocker_of r m)

  unfoldable pub get_latest_observed : IntraReader C → BlockerMap T C → Option T
  get_latest_observed r m = from_blocker none get_latest_observed_ptr (blocker_of r m)

  unfoldable pub get_oldest_observed : IntraReader C → BlockerMap T C → Option T
  get_oldest_observed r m = from_blocker none get_oldest_observed_ptr (blocker_of r m)
