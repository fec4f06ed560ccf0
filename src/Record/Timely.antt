-- ===== src/Record/Timely.antt =====
-- The times of the chunks of a file are those of the messages that were written.
use cyber_rt_standalone_r.Prelude.{
  ℕ, ◌≤◌, ◌<◌, inl, inr, List, [], ◌∷◌, ◌++◌, Bool, true, false, if◌then◌else◌, ◌==◌, length, arith,
  Bool-cases,
}
use cyber_rt_standalone_r.Record.{SingleMessage, Header, ChunkBody, Codec, Codecs}
use cyber_rt_standalone_r.Record.Writer.{
  Chunk, add_message, is_empty_chunk, need_flush, Step, put_channel, put_message, flush_pass,
}
use cyber_rt_standalone_r.Record.Read.{
  Part, channel_part, chunk_part, Small, Within, IsFine, AreFine,
}
use cyber_rt_standalone_r.Record.Plan.{
  Plan, begun, exchange, plan_flushed, plan_flush, plan_message, plan_all, parts_of, messages_put,
}
use cyber_rt_standalone_r.Record.Refined.{begin_after}

-- A message that has bytes, and not too many for a section.
abbrev pub Sized : {A : Type 0} → Codec A → A → Type 0
Sized c a = Small c a × (0 < length (c.serialize a))

abbrev pub IsSized : Codecs → Part → Type 0
IsSized cs (channel_part c) = Sized cs.channel c
IsSized cs (chunk_part h b) = Sized cs.chunk_header h × Sized cs.chunk_body b

abbrev pub AreSized : Codecs → List Part → Type 0
AreSized cs [] = Unit
AreSized cs (x ∷ xs) = IsSized cs x × AreSized cs xs

Within-snoc :
    (e : ℕ) (ms : ChunkBody) (m : SingleMessage)
    → Within e ms
    → m.time ≤ e
    → Within e (ms ++ m ∷ [])
Within-snoc e [] m w h = (h, tt)
Within-snoc e (x ∷ ms) m (l, w) h = (l, Within-snoc e ms m w h)

Within-mono : (d e : ℕ) (ms : ChunkBody) → d ≤ e → Within d ms → Within e ms
Within-mono d e [] l w = tt
Within-mono d e (m ∷ ms) l (h, w) = (omega (arith, l, h), Within-mono d e ms l w)

module _ (e : ℕ) where
  abbrev IsTimely : Chunk → Type 0
  IsTimely c = (c.header.begin_time ≤ e) × Within e c.body × Within c.header.end_time c.body

  abbrev pub IsTimelyPart : Part → Type 0
  IsTimelyPart (channel_part c) = Unit
  IsTimelyPart (chunk_part h b) = (h.begin_time ≤ e) × Within e b × Within h.end_time b

  abbrev pub AreTimely : List Part → Type 0
  AreTimely [] = Unit
  AreTimely (x ∷ xs) = IsTimelyPart x × AreTimely xs

  record IsTimelyPlan (p : Plan) : Type 0 where
    active : IsTimely p.active
    waiting : IsTimely p.waiting
    parts : AreTimely p.parts

  AreTimely-snoc :
      (xs : List Part) (x : Part) → AreTimely xs → IsTimelyPart x → AreTimely (xs ++ x ∷ [])
  AreTimely-snoc [] x t h = (h, tt)
  AreTimely-snoc (y ∷ xs) x (l, t) h = (l, AreTimely-snoc xs x t h)

  add_message-IsTimely :
      (c : Chunk) (m : SingleMessage) → IsTimely c → m.time ≤ e → IsTimely (add_message c m)
  add_message-IsTimely c m (h, w, v) l =
      let n = (add_message c m).header.end_time in
      (
        ground (arith, h, l),
        Within-snoc e c.body m w l,
        Within-snoc n c.body m (Within-mono c.header.end_time n c.body (ground arith) v)
            (ground arith),
      )

  flushed-IsTimelyPlan : (b : Bool) (p : Plan) → IsTimelyPlan p → IsTimelyPlan (plan_flushed b p)
  flushed-IsTimelyPlan true p t = t
  flushed-IsTimelyPlan false p t = record {
    active = t.active;
    waiting = (omega arith, tt, tt);
    parts = AreTimely-snoc p.parts (chunk_part p.waiting.header p.waiting.body) t.parts t.waiting;
  }

  exchange-IsTimelyPlan : (p : Plan) → IsTimelyPlan p → IsTimelyPlan (exchange p)
  exchange-IsTimelyPlan p t = record { active = t.waiting; waiting = t.active; parts = t.parts }

  message-IsTimelyPlan :
      (h : Header) (m : SingleMessage) (p : Plan)
      → IsTimelyPlan p
      → m.time ≤ e
      → IsTimelyPlan (plan_message h m p)
  message-IsTimelyPlan h m p t l =
      let a = add_message p.active m in
      let q : IsTimelyPlan (record p { active = a }) = record {
        active = add_message-IsTimely p.active m t.active l;
        waiting = t.waiting;
        parts = t.parts;
      } in
      elim (Bool-cases (need_flush h a.header m)) [
        | inl k ↦ rw k (exchange-IsTimelyPlan (record p { active = a }) q)
        | inr k ↦ rw k q
      ]

  all-IsTimelyPlan :
      (h : Header) (xs : List Step) (p : Plan)
      → IsTimelyPlan p
      → Within e (messages_put xs)
      → IsTimelyPlan (plan_all h xs p)
  all-IsTimelyPlan h [] p t w = t
  all-IsTimelyPlan h (put_channel c ∷ xs) p t w =
      all-IsTimelyPlan h xs _
        (record {
          active = t.active;
          waiting = t.waiting;
          parts = AreTimely-snoc p.parts (channel_part c) t.parts tt;
        })
        w
  all-IsTimelyPlan h (put_message m ∷ xs) p t (l, w) =
      all-IsTimelyPlan h xs (plan_message h m p) (message-IsTimelyPlan h m p t l) w
  all-IsTimelyPlan h (flush_pass ∷ xs) p t w =
      all-IsTimelyPlan h xs (plan_flush p) (flushed-IsTimelyPlan (is_empty_chunk p.waiting) p t) w

  pub parts_of-AreTimely :
      (h : Header) (xs : List Step) → Within e (messages_put xs) → AreTimely (parts_of h xs)
  parts_of-AreTimely h xs w =
      let b : IsTimelyPlan begun = record {
        active = (omega arith, tt, tt);
        waiting = (omega arith, tt, tt);
        parts = tt;
      } in
      let p = plan_all h xs begun in
      let q = plan_flush p in
      (flushed-IsTimelyPlan (is_empty_chunk (exchange q).waiting) (exchange q) (
        exchange-IsTimelyPlan q (
          flushed-IsTimelyPlan (is_empty_chunk p.waiting) p
            (all-IsTimelyPlan h xs begun b w)))).parts

  part-IsFine : (cs : Codecs) (x : Part) → IsSized cs x → IsTimelyPart x → IsFine cs e x
  part-IsFine cs (channel_part c) (s, n) t = s
  part-IsFine cs (chunk_part h b) ((s, n), (z, k)) (l, w, v) = (s, z, l, w)

  all_fine : (cs : Codecs) (xs : List Part) → AreSized cs xs → AreTimely xs → AreFine cs e xs
  all_fine cs [] s t = tt
  all_fine cs (x ∷ xs) (s, z) (t, u) = (part-IsFine cs x s t, all_fine cs xs z u)

  begin_after_early : (b : ℕ) (xs : List Part) → b ≤ e → AreTimely xs → begin_after b xs ≤ e
  begin_after_early b [] l t = l
  begin_after_early b (channel_part c ∷ xs) l (u, t) = begin_after_early b xs l t
  begin_after_early b (chunk_part h c ∷ xs) l ((u, w, v), t) =
      begin_after_early (if b == 0 then h.begin_time else b) xs (ground (arith, l, u)) t

  -- The parts of a file whose messages are not behind `e`, and its begin.
  pub parts_of-AreFine :
      (cs : Codecs) (h : Header) (xs : List Step)
      → Within e (messages_put xs)
      → AreSized cs (parts_of h xs)
      → AreFine cs e (parts_of h xs)
  parts_of-AreFine cs h xs w s = all_fine cs (parts_of h xs) s (parts_of-AreTimely h xs w)

  pub begin_after-parts_of :
      (h : Header) (xs : List Step)
      → Within e (messages_put xs)
      → h.begin_time ≤ e
      → begin_after h.begin_time (parts_of h xs) ≤ e
  begin_after-parts_of h xs w l =
      begin_after_early h.begin_time (parts_of h xs) l (parts_of-AreTimely h xs w)
