-- ===== src/Blocker/Tests.antt =====
-- Runs of cyber/blocker on small inputs, and the theorems at them.
use cyber_rt_standalone_r.Prelude.{
  none, ◌==◌, List, refl, true, false, if◌then◌else◌, ℕ, ◌≡◌, ◌≤◌, [], ◌∷◌, some, length, arith,
}
use cyber_rt_standalone_r.Blocker.{Blocker}
use cyber_rt_standalone_r.Blocker.Published.{publish_all, published-publish_all}
use cyber_rt_standalone_r.Discovery.Keys.{Key, key_eq, find}
use cyber_rt_standalone_r.Blocker.{subscribe, unsubscribe}
use cyber_rt_standalone_r.Blocker.Subscriptions.{subscribe-unsubscribe}
use cyber_rt_standalone_r.Blocker.Manager.{publish_channel}
use cyber_rt_standalone_r.Blocker.Reader.{
  IntraReader, start, observe_reader, get_latest_observed, get_oldest_observed, get_history_depth,
}
use cyber_rt_standalone_r.Blocker.Delivery.{
  messages_on, publish_channels, reader_observes, entry, delivered, calls_of, publish_channel-find,
}

abbrev fresh : Blocker ℕ ℕ
fresh = record {
  capacity = 2;
  channel_name = [];
  observed_msg_queue = [];
  published_msg_queue = [];
  published_callbacks = [];
}

published-publish_all_example :
    ((publish_all (1 ∷ 2 ∷ 3 ∷ []) fresh).published_msg_queue ≡ 3 ∷ 2 ∷ [])
    × (length (publish_all (1 ∷ 2 ∷ 3 ∷ []) fresh).published_msg_queue
        ≤ (publish_all (1 ∷ 2 ∷ 3 ∷ []) fresh).capacity)
    × ((publish_all (1 ∷ 2 ∷ 3 ∷ []) fresh).observed_msg_queue ≡ [])
    × ((publish_all (1 ∷ 2 ∷ 3 ∷ []) fresh).capacity ≡ 2)
published-publish_all_example = published-publish_all (1 ∷ 2 ∷ 3 ∷ []) fresh (omega arith)

subscribe-unsubscribe_example :
    (find (98 ∷ []) (subscribe (97 ∷ []) 7 fresh).1.published_callbacks
      ≡ (if key_eq (97 ∷ []) (98 ∷ []) then some 7 else none))
    × ((subscribe (97 ∷ []) 7 fresh).0 ≡ true)
    × (find (98 ∷ []) (unsubscribe (97 ∷ []) fresh).1.published_callbacks
        ≡ (if key_eq (97 ∷ []) (98 ∷ []) then none else none))
    × ((unsubscribe (97 ∷ []) fresh).0 ≡ false)
unfolding find
subscribe-unsubscribe_example = subscribe-unsubscribe (97 ∷ []) (98 ∷ []) 7 fresh

-- Channel 7 has a reader of depth 2; a message of another type and one on channel 8 do not reach it.
abbrev reader : IntraReader ℕ
reader = record {
  tag = 1;
  channel_name = 7 ∷ [];
  depth = 2;
  node_name = 5 ∷ [];
  msg_callback = 0;
  init = false;
}

abbrev traffic : List (ℕ × Key × ℕ)
traffic =
    (1, (7 ∷ []), 10)
    ∷ (1, (8 ∷ []), 20)
    ∷ (2, (7 ∷ []), 30)
    ∷ (1, (7 ∷ []), 40)
    ∷ (1, (7 ∷ []), 50)
    ∷ []

traffic_on : messages_on 1 (7 ∷ []) traffic ≡ 10 ∷ 40 ∷ 50 ∷ []
unfolding key_eq
traffic_on = refl

reader_observes_example :
    let sent = publish_channels traffic (start reader []).2 in
    let seen = observe_reader reader sent in
    (get_latest_observed reader sent ≡ none)
    × (get_latest_observed reader seen ≡ some 50)
    × (get_oldest_observed reader seen ≡ some 40)
    × (get_history_depth reader seen ≡ 2)
unfolding find key_eq
reader_observes_example = reader_observes reader [] traffic refl refl

publish_channel-find_example :
    let r = publish_channel {T = ℕ} {C = ℕ} 1 (8 ∷ []) 20 (start reader []).2 in
    let t = entry 1 (8 ∷ []) (find (8 ∷ []) (start reader []).2) in
    (find (7 ∷ []) r.2 ≡ (
      if key_eq (8 ∷ []) (7 ∷ [])
      then some (delivered 1 20 t)
      else find (7 ∷ []) (start reader []).2))
    × (r.1 ≡ calls_of 1 20 t)
    × (r.0 ≡ (t.tag == 1))
publish_channel-find_example = publish_channel-find 1 (8 ∷ []) (7 ∷ []) 20 (start reader []).2
