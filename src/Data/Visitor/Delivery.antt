-- ===== src/Data/Visitor/Delivery.antt =====
-- What a component sees of the messages that are dispatched to it.
use mathlib.Core.List.{append_assoc}
use cyber_rt_standalone_r.Prelude.{
  ℕ, zero, suc, ◌+◌, ◌-◌, ◌^◌, ◌≤◌, ◌<◌, ◌≡◌, refl, sym, ap, subst, ◌∙◌, List, [], ◌∷◌, ◌++◌,
  Option, some, none, arith, get_or, length, length-append, get_or-append_left, add_u64, drop,
  drop-length, drop-cons,
}
use cyber_rt_standalone_r.Data.Buffer.History.{
  Holds, init-Holds, fusion_callback-init, store-Holds, fill_plain, fusion_callback-store,
}
use cyber_rt_standalone_r.Data.Channel.Reads.{
  owed, owed_bounds, owed_next, owed-none, fetch_lem, delivery,
}
use cyber_rt_standalone_r.Data.Visitor.{
  Visitor, create, Event, arrive, poll, try_fetch, arrival, run, drain, settle, drained,
}

-- The messages that a schedule brings.
abbrev pub arrivals : {T : Type 0} → List (Event T) → List T
arrivals [] = []
arrivals (arrive m ∷ es) = m ∷ arrivals es
arrivals (poll ∷ es) = arrivals es

module _ {T : Type 0} (default : T) (n : ℕ) where
  -- The visitor's buffer holds `hist`, nothing is fused, and its index is at most one too far.
  pub record Reading (v : Visitor T) (hist : List T) : Type 0 where
    pub holds : Holds default n v.buffer hist
    pub plain : v.buffer.fusion_callback ≡ none
    pub reach : v.next_msg_index ≤ length hist + 1

  -- Each delivery is the message at its position, and the positions rise from `lo` on.
  abbrev pub InOrder : ℕ → List T → List (ℕ × T) → Type 0
  InOrder lo hist [] = Unit {0}
  InOrder lo hist ((p, m) ∷ out) =
      (lo ≤ p)
      × (0 < p)
      × (p ≤ length hist)
      × (m ≡ get_or hist (p - 1) default)
      × InOrder (p + 1) hist out

  -- What a poll does when message `p` is owed, or none.
  abbrev attempt : Visitor T → List T → Option ℕ → Option (ℕ × T) × Visitor T
  attempt v hist none = (none, v)
  attempt v hist (some p) =
      (some (p, get_or hist (p - 1) default), record v { next_msg_index = add_u64 p 1 })

  pub create-Reading : n + 1 < 2 ^ 64 → Reading (create default n) []
  unfolding create
  create-Reading h = record {
    holds = init-Holds default n h;
    plain = fusion_callback-init default n;
    reach = omega arith;
  }

  pub arrival-Reading :
      (v : Visitor T) (hist : List T) (m : T)
      → Reading v hist
      → length hist + 3 < 2 ^ 64
      → Reading (arrival v m) (hist ++ m ∷ [])
  unfolding arrival
  arrival-Reading v hist m r room = rw (fill_plain v.buffer m tt r.plain) (record {
    holds = store-Holds default n v.buffer hist m r.holds room;
    plain = fusion_callback-store v.buffer m ∙ r.plain;
    reach = omega (arith, length-append hist (m ∷ []), r.reach);
  })

  try_fetch_lem :
      (v : Visitor T) (hist : List T) (o : Option ℕ)
      → Reading v hist
      → 0 < n
      → owed n (length hist) v.next_msg_index ≡ o
      → try_fetch default v ≡ attempt v hist o
  unfolding try_fetch
  try_fetch_lem v hist none r pos e = ap (settle default v) (
      fetch_lem default n v.buffer hist v.next_msg_index r.holds pos r.reach
      ∙ ap (delivery default hist v.next_msg_index) e)
  try_fetch_lem v hist (some p) r pos e = ap (settle default v) (
      fetch_lem default n v.buffer hist v.next_msg_index r.holds pos r.reach
      ∙ ap (delivery default hist v.next_msg_index) e)

  -- A poll never moves the index back, and moves it past the message that it delivers.
  attempt-Reading :
      (v : Visitor T) (hist : List T) (p : ℕ)
      → Reading v hist
      → p ≤ length hist
      → Reading (attempt v hist (some p)).1 hist
  attempt-Reading v hist p r h = record {
    holds = r.holds;
    plain = r.plain;
    reach = omega (arith, r.holds.small);
  }

  -- One poll, given what holds of the polls that follow it.
  poll-InOrder :
      (v : Visitor T) (hist : List T) (es : List (Event T)) (o : Option ℕ)
      → Reading v hist
      → 0 < n
      → owed n (length hist) v.next_msg_index ≡ o
      → ((u : Visitor T)
          → Reading u hist
          → InOrder u.next_msg_index (hist ++ arrivals es) (run default u es))
      → InOrder v.next_msg_index (hist ++ arrivals es) (run default v (poll ∷ es))
  unfolding run
  poll-InOrder v hist es none r pos e later = rw (try_fetch_lem v hist none r pos e) (later v r)
  poll-InOrder v hist es (some p) r pos e later =
      let b = owed_bounds n (length hist) v.next_msg_index p e pos in
      let next : add_u64 p 1 ≡ p + 1 = omega (arith, r.holds.small) in
      let rest = later (attempt v hist (some p)).1 (attempt-Reading v hist p r (b.2)) in
      rw (try_fetch_lem v hist (some p) r pos e) (
        b.0,
        b.1,
        omega (arith, length-append hist (arrivals es)),
        sym (get_or-append_left hist (arrivals es) (p - 1) default (omega arith)),
        subst (λ k. InOrder k (hist ++ arrivals es) (run default (attempt v hist (some p)).1 es))
            next rest,
      )

  -- Whatever the schedule of arrivals and polls, the polls deliver messages that came, each at its
  -- own position, in the order in which they came and none twice.
  pub run-InOrder :
      (v : Visitor T) (hist : List T) (es : List (Event T))
      → Reading v hist
      → 0 < n
      → length hist + length es + 3 < 2 ^ 64
      → InOrder v.next_msg_index (hist ++ arrivals es) (run default v es)
  unfolding run arrival
  run-InOrder v hist [] r pos room = tt
  run-InOrder v hist (arrive m ∷ es) r pos room = rw (← append_assoc hist (m ∷ []) (arrivals es)) (
      run-InOrder (arrival v m) (hist ++ m ∷ []) es (arrival-Reading v hist m r (omega arith)) pos
        (omega (arith, length-append hist (m ∷ []))))
  run-InOrder v hist (poll ∷ es) r pos room =
      poll-InOrder v hist es (owed n (length hist) v.next_msg_index) r pos refl
        λ u ru. run-InOrder u hist es ru pos (omega arith)

  drain_stop :
      (f : ℕ) (v u : Visitor T)
      → try_fetch default v ≡ (none, u)
      → drain default (suc f) v ≡ ([], u)
  unfolding drain
  drain_stop f v u e = ap (drained default (drain default f)) e

  drain_more :
      (f : ℕ) (v u : Visitor T) (d : ℕ × T)
      → try_fetch default v ≡ (some d, u)
      → drain default (suc f) v ≡ (d.1 ∷ (drain default f u).0, (drain default f u).1)
  unfolding drain
  drain_more f v u d e = ap (drained default (drain default f)) e

  -- A visitor that has fallen behind by no more than the buffer keeps loses nothing: polling until
  -- there is no more delivers every message from its index on, once and in order.
  pub drain_lem :
      (k : ℕ) (v : Visitor T) (hist : List T) (p : ℕ)
      → Reading v hist
      → v.next_msg_index ≡ p + 1
      → length hist ≤ p + n
      → p + k ≡ length hist
      → 0 < n
      → drain default (suc k) v ≡ (drop p hist, record v { next_msg_index = length hist + 1 })
  drain_lem zero v hist p r here lag e pos =
      drain_stop 0 v v
        (try_fetch_lem v hist none r pos (owed-none n (length hist) v.next_msg_index (omega arith)))
      ∙ ground (arith, drop-length hist p)
  drain_lem (suc k) v hist p r here lag e pos =
      let o : owed n (length hist) v.next_msg_index ≡ some (p + 1) =
        rw here (owed_next n (length hist) (p + 1) (omega arith) (omega arith) (omega arith)) in
      let u : Visitor T = record v { next_msg_index = add_u64 (p + 1) 1 } in
      let ru : Reading u hist = attempt-Reading v hist (p + 1) r (omega arith) in
      drain_more (suc k) v u _ (try_fetch_lem v hist (some (p + 1)) r pos o)
      ∙ ground (arith, r.holds.small, drain_lem k u hist (suc p) ru, drop-cons hist p default)
