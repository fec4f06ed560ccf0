-- ===== src/Blocker/Delivery.antt =====
-- What the readers of a channel see of the messages that a process publishes on its channels.
use cyber_rt_standalone_r.Prelude.{
  ℕ, ◌≡◌, refl, sym, ap, ◌∙◌, inl, inr, List, [], ◌∷◌, Bool, true, false, ◌&&◌, Option, some, none,
  if◌then◌else◌, length, take, get_last?, arith, ◌==◌, ==_iff, Bool-cases,
}
use cyber_rt_standalone_r.Discovery.Keys.{
  Key, key_eq, key_eq_iff, key_eq_refl, find, find-assign, values,
}
use cyber_rt_standalone_r.Blocker.{
  Blocker, publish, calls, notify, subscribe, observe, get_latest_observed_ptr,
  get_oldest_observed_ptr, get_front,
}
use cyber_rt_standalone_r.Blocker.Published.{publish_all, newest_first, published-publish_all}
use cyber_rt_standalone_r.Blocker.Manager.{
  Typed, BlockerMap, default_capacity, new_blocker, cast_found, keep, get_blocker, get_or_create,
  get_or_create_blocker, publish_on, publish_channel, subscribe_on, subscribe_channel,
}
use cyber_rt_standalone_r.Blocker.Reader.{
  IntraReader, init_reader, start, on_blocker, blocker_of, observe_reader, from_blocker,
  get_latest_observed, get_oldest_observed, get_history_depth,
}

-- The messages among some publications that a channel's blocker of a type takes.
abbrev pub messages_on : {T : Type 0} → ℕ → Key → List (ℕ × Key × T) → List T
messages_on tag n [] = []
messages_on tag n ((tag', n', msg) ∷ xs) =
    if key_eq n' n && tag == tag' then msg ∷ messages_on tag n xs else messages_on tag n xs

module _ {T C : Type 0} where
  -- A channel's blocker before a message of a type: one is made where there is none.
  abbrev pub entry : ℕ → Key → Option (Typed T C) → Typed T C
  entry tag n none = record { tag = tag; blocker = new_blocker 10 n }
  entry tag n (some t) = t

  -- A blocker of the type takes the message, and another one does not.
  abbrev pub delivered : ℕ → T → Typed T C → Typed T C
  delivered tag msg t =
      if t.tag == tag then record { tag = tag; blocker = (publish msg t.blocker).1 } else t

  -- Each callback that is subscribed, with the message.
  abbrev pub each_called : T → List (Key × C) → List (C × T)
  each_called msg [] = []
  each_called msg ((id, callback) ∷ cs) = (callback, msg) ∷ each_called msg cs

  abbrev pub calls_of : ℕ → T → Typed T C → List (C × T)
  calls_of tag msg t = if t.tag == tag then each_called msg t.blocker.published_callbacks else []

  calls-values : (msg : T) (cs : List (Key × C)) → calls msg (values cs) ≡ each_called msg cs
  calls-values msg [] = refl
  calls-values msg ((id, callback) ∷ cs) = ap (◌∷◌ (callback, msg)) (calls-values msg cs)

  notify_lem : (msg : T) (b : Blocker T C) → notify msg b ≡ each_called msg b.published_callbacks
  unfolding notify
  notify_lem msg b = calls-values msg b.published_callbacks

  publish_found :
      (tag : ℕ) (n j : Key) (msg : T) (b : Bool) (t : Typed T C) (m : BlockerMap T C)
      → (t.tag == tag) ≡ b
      → find n m ≡ some t
      → (find j (publish_on tag n msg (if b then some t.blocker else none) m).2
          ≡ (if key_eq n j then some (delivered tag msg t) else find j m))
        × ((publish_on tag n msg (if b then some t.blocker else none) m).1 ≡ calls_of tag msg t)
        × ((publish_on tag n msg (if b then some t.blocker else none) m).0 ≡ (t.tag == tag))
  unfolding publish
  publish_found tag n j msg true t m e f = (
    rw e (find-assign n j (record { tag = tag; blocker = (publish msg t.blocker).1 }) m),
    rw e (notify_lem msg t.blocker),
    sym e,
  )
  publish_found tag n j msg false t m e f = (ground (arith, e, f, key_eq_iff n j), rw e refl, sym e)

  publish_entry :
      (tag : ℕ) (n j : Key) (msg : T) (o : Option (Typed T C)) (m : BlockerMap T C)
      → find n m ≡ o
      → let (b, m') = get_or_create tag default_capacity n o m in
        let r = publish_on tag n msg b m' in
        (find j r.2 ≡ (if key_eq n j then some (delivered tag msg (entry tag n o)) else find j m))
        × (r.1 ≡ calls_of tag msg (entry tag n o))
        × (r.0 ≡ ((entry tag n o).tag == tag))
  unfolding publish
  publish_entry tag n j msg none m f =
      let t = entry tag n none in
      let m' = keep tag n t.blocker m in
      let e : (tag == tag) ≡ true = (==_iff tag tag).1 refl in
      let here : find n m' ≡ some t = find-assign n n t m ∙ rw (key_eq_refl n) refl in
      let (p, q, r) = publish_found tag n j msg true t m' e here in
      (p ∙ ground (arith, find-assign n j t m), q, r)
  publish_entry tag n j msg (some t) m f = publish_found tag n j msg (t.tag == tag) t m refl f

  -- A publication on a channel whose blocker has the type of the message, or that has no blocker yet,
  -- returns true, calls the callbacks that are subscribed there, and changes that channel's blocker
  -- only; on a blocker of another type it returns false, calls none and changes nothing.
  pub publish_channel-find :
      (tag : ℕ) (n j : Key) (msg : T) (m : BlockerMap T C)
      → let r = publish_channel tag n msg m in
        let t = entry tag n (find n m) in
        (find j r.2 ≡ (if key_eq n j then some (delivered tag msg t) else find j m))
        × (r.1 ≡ calls_of tag msg t)
        × (r.0 ≡ (t.tag == tag))
  unfolding publish_channel get_or_create_blocker
  publish_channel-find tag n j msg m = publish_entry tag n j msg (find n m) m refl

  -- Publications on any channels, with messages of any type.
  abbrev pub publish_channels : List (ℕ × Key × T) → BlockerMap T C → BlockerMap T C
  publish_channels [] m = m
  publish_channels ((tag, n, msg) ∷ xs) m = publish_channels xs (publish_channel tag n msg m).2

  abbrev typed : ℕ → Blocker T C → Typed T C
  typed tag b = record { tag = tag; blocker = b }

  delivered_lem :
      (tag tag' : ℕ) (msg : T) (b : Blocker T C)
      → delivered tag' msg (typed tag b)
        ≡ (if tag == tag' then typed tag (publish msg b).1 else typed tag b)
  delivered_lem tag tag' msg b = elim (Bool-cases (tag == tag')) [
    | inl e ↦ rw e (ap (λ l. typed l (publish msg b).1) (sym ((==_iff tag tag').0 e)))
    | inr e ↦ rw e refl
  ]

  find-publish_channel :
      (tag tag' : ℕ) (n n' : Key) (msg : T) (m : BlockerMap T C) (b : Blocker T C)
      → find n m ≡ some (typed tag b)
      → find n (publish_channel tag' n' msg m).2 ≡ (
          if key_eq n' n && tag == tag'
          then some (typed tag (publish msg b).1)
          else some (typed tag b))
  find-publish_channel tag tag' n n' msg m b h =
      let p = (publish_channel-find tag' n' n msg m).0 in
      elim (Bool-cases (key_eq n' n)) [
        | inl e ↦
            let g : find n' m ≡ some (typed tag b) =
              ap (λ k. find k m) ((key_eq_iff n' n).0 e) ∙ h in
            p ∙ rw (e, g) (ap some (delivered_lem tag tag' msg b) ∙ ground arith)
        | inr e ↦ p ∙ rw e h
      ]

  find-publish_channels :
      (tag : ℕ) (n : Key) (xs : List (ℕ × Key × T)) (m : BlockerMap T C) (b : Blocker T C)
      → find n m ≡ some (record { tag = tag; blocker = b })
      → find n (publish_channels xs m)
        ≡ some (record { tag = tag; blocker = publish_all (messages_on tag n xs) b })
  find-publish_channels tag n [] m b h = h
  find-publish_channels tag n ((tag', n', msg) ∷ xs) m b h =
      let p = find-publish_channel tag tag' n n' msg m b h in
      elim (Bool-cases (key_eq n' n && tag == tag')) [
        | inl e ↦ rw e (find-publish_channels tag n xs _ (publish msg b).1 (p ∙ rw e refl))
        | inr e ↦ rw e (find-publish_channels tag n xs _ b (p ∙ rw e refl))
      ]

  -- `Init` of a reader on a channel without a blocker.
  find-start :
      (r : IntraReader C) (m : BlockerMap T C)
      → r.init ≡ false
      → find r.channel_name m ≡ none
      → (b : Blocker T C) × ((find r.channel_name (start r m).2 ≡ some (typed r.tag b))
          × (b.capacity ≡ r.depth)
          × (b.published_msg_queue ≡ [])
          × (b.observed_msg_queue ≡ []))
  unfolding start subscribe_channel get_or_create_blocker subscribe find
  find-start r m i h =
      let n = r.channel_name in
      let subscribed_on = λ (x : Option (Blocker T C) × BlockerMap T C).
        (subscribe_on r.tag n r.node_name r.msg_callback x.0 x.1).1 in
      let e =
        ap (λ c. (init_reader c r m).2) i
        ∙ ap (λ o. subscribed_on (get_or_create r.tag r.depth n o m)) h in
      let b = (subscribe r.node_name r.msg_callback (new_blocker r.depth n)).1 in
      (
        b,
        (
          ap (find n) e ∙ (find-assign n n (typed r.tag b) _ ∙ rw (key_eq_refl n) refl),
          refl,
          refl,
          refl,
        ),
      )

  get_blocker-find :
      (tag : ℕ) (n : Key) (m : BlockerMap T C) (b : Blocker T C)
      → find n m ≡ some (typed tag b)
      → get_blocker tag n m ≡ some b
  unfolding get_blocker
  get_blocker-find tag n m b h =
      ap (cast_found tag) h ∙ ap (λ c. if c then some b else none) ((==_iff tag tag).1 refl)

  get_blocker-keep :
      (tag : ℕ) (n : Key) (b : Blocker T C) (m : BlockerMap T C)
      → get_blocker tag n (keep tag n b m) ≡ some b
  get_blocker-keep tag n b m =
      get_blocker-find tag n (keep tag n b m) b
        (find-assign n n (typed tag b) m ∙ rw (key_eq_refl n) refl)

  -- For a reader that is initialised on a channel without a blocker, and after any publications on any
  -- channels: it has observed nothing until it observes, and then its latest and its oldest message are those of the
  -- messages of its type on its channel, as many of the newest as its depth.
  pub reader_observes :
      (r : IntraReader C) (m : BlockerMap T C) (xs : List (ℕ × Key × T))
      → r.init ≡ false
      → find r.channel_name m ≡ none
      → let sent = publish_channels xs (start r m).2 in
        let seen = observe_reader r sent in
        let q = take r.depth (newest_first (messages_on r.tag r.channel_name xs) []) in
        (get_latest_observed r sent ≡ none)
        × (get_latest_observed r seen ≡ get_front q)
        × (get_oldest_observed r seen ≡ get_last? q)
        × (get_history_depth r seen ≡ r.depth)
  unfolding get_latest_observed get_oldest_observed get_history_depth observe_reader observe
      get_latest_observed_ptr get_oldest_observed_ptr
  reader_observes r m xs i h =
      let (b0, (f, c, p, o)) = find-start r m i h in
      let ms = messages_on r.tag r.channel_name xs in
      let b = publish_all ms b0 in
      let m1 = publish_channels xs (start r m).2 in
      let (q, l, w, z) = published-publish_all ms b0 (omega (arith, ap length p)) in
      let g : blocker_of r m1 ≡ some b =
        get_blocker-find r.tag r.channel_name m1 b
          (find-publish_channels r.tag r.channel_name xs (start r m).2 b0 f) in
      let k : blocker_of r (observe_reader r m1) ≡ some (observe b) =
        ap (λ u. blocker_of r (on_blocker r observe u m1)) g
        ∙ get_blocker-keep r.tag r.channel_name (observe b) m1 in
      let e : b.published_msg_queue ≡ take r.depth (newest_first ms []) =
        q
        ∙ (ap (λ n. take n (newest_first ms b0.published_msg_queue)) c
            ∙ ap (λ y. take r.depth (newest_first ms y)) p) in
      (
        ap (from_blocker none get_latest_observed_ptr) g ∙ ap get_front (w ∙ o),
        ap (from_blocker none get_latest_observed_ptr) k ∙ ap get_front e,
        ap (from_blocker none get_oldest_observed_ptr) k ∙ ap get_last? e,
        ap (from_blocker 0 (λ y. y.capacity)) k ∙ (z ∙ c),
      )
