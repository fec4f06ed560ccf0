-- ===== src/Record/Refined.antt =====
-- The bytes that a writer leaves are those of the parts of its plan.
use cyber_rt_standalone_r.Prelude.{
  ℕ, ◌-◌, ◌≡◌, inl, inr, refl, sym, ap, subst, ◌∙◌, List, [], ◌∷◌, ◌++◌, Bool, true, false, ◌&&◌,
  ◌||◌, if◌then◌else◌, ◌==◌, ltb, add_u64, Bool-cases,
}
use mathlib.Core.List.{append_assoc, append-nil}
use cyber_rt_standalone_r.Discovery.Keys.{find_or, assign}
use cyber_rt_standalone_r.Record.{SingleMessage, Header, Channel, Codecs}
use cyber_rt_standalone_r.Record.File.{
  File, section_chunk_header, section_chunk_body, section_channel, write_section,
  write_header_section,
}
use cyber_rt_standalone_r.Record.Writer.{
  Chunk, cleared, add_message, is_empty_chunk, need_flush, swap, RecordFileWriter, opened, Step,
  put_channel, put_message, flush_pass, write_header, write_channel, write_chunk, write_message,
  flushed, flush, perform, perform_all,
}
use cyber_rt_standalone_r.Record.Read.{Part, channel_part, chunk_part, encode, encode_all}
use cyber_rt_standalone_r.Record.Plan.{
  Plan, begun, exchange, plan_flushed, plan_flush, plan_message, plan_step, plan_all,
}
use cyber_rt_standalone_r.Record.Written.{
  Written, framed, write_section-Written, header_bytes, write_header_section-Written, frame-append,
  encode_all-append, encode_all-snoc,
}

-- The time at which a file begins, after some parts.
abbrev pub begin_after : ℕ → List Part → ℕ
begin_after b [] = b
begin_after b (channel_part c ∷ xs) = begin_after b xs
begin_after b (chunk_part h c ∷ xs) = begin_after (if b == 0 then h.begin_time else b) xs

begin_after-append :
    (b : ℕ) (xs ys : List Part) → begin_after b (xs ++ ys) ≡ begin_after (begin_after b xs) ys
begin_after-append b [] ys = refl
begin_after-append b (channel_part c ∷ xs) ys = begin_after-append b xs ys
begin_after-append b (chunk_part h c ∷ xs) ys =
    begin_after-append (if b == 0 then h.begin_time else b) xs ys

module _ (cs : Codecs) (h0 : Header) (old : List ℕ) where
  -- What stands in the file after some parts.
  abbrev pub bytes_of : List Part → List ℕ
  bytes_of xs = header_bytes cs.header h0 ++ encode_all cs xs []

  pub record Refines (w : RecordFileWriter) (p : Plan) : Type 0 where
    pub active : w.chunk_active ≡ p.active
    pub waiting : w.chunk_flush ≡ p.waiting
    pub written : Written w.file (bytes_of p.parts) old
    pub interval : w.header.chunk_interval ≡ h0.chunk_interval
    pub raw_size : w.header.chunk_raw_size ≡ h0.chunk_raw_size
    pub begins : w.header.begin_time ≡ begin_after h0.begin_time p.parts

  -- One more part.
  bytes_of-snoc :
      (xs : List Part) (x : Part) → bytes_of xs ++ encode cs x [] ≡ bytes_of (xs ++ x ∷ [])
  bytes_of-snoc xs x =
      append_assoc (header_bytes cs.header h0) (encode_all cs xs []) (encode cs x [])
      ∙ ap (λ y. header_bytes cs.header h0 ++ y)
          (sym (encode_all-append cs xs [] (encode cs x []))
            ∙ sym (encode_all-snoc cs xs (x ∷ []) []))

  write_channel-Refines :
      (c : Channel) (w : RecordFileWriter) (p : Plan)
      → Refines w p
      → Refines (write_channel cs c w) (record p { parts = p.parts ++ channel_part c ∷ [] })
  unfolding write_channel
  write_channel-Refines c w p r = record {
    active = r.active;
    waiting = r.waiting;
    written =
        subst (λ u. Written (write_section cs.channel section_channel c w.file) u old)
          (bytes_of-snoc p.parts (channel_part c))
          (write_section-Written cs.channel section_channel c w.file (bytes_of p.parts) old
            r.written);
    interval = r.interval;
    raw_size = r.raw_size;
    begins = r.begins ∙ sym (begin_after-append h0.begin_time p.parts (channel_part c ∷ []));
  }

  -- Both sections of a chunk.
  chunk-Written :
      (c : Chunk) (f : File) (xs : List Part)
      → Written f (bytes_of xs) old
      → Written
          (write_section cs.chunk_body section_chunk_body c.body
            (write_section cs.chunk_header section_chunk_header c.header f))
          (bytes_of (xs ++ chunk_part c.header c.body ∷ []))
          old
  chunk-Written c f xs h =
      let x = framed cs.chunk_header section_chunk_header c.header in
      let y = framed cs.chunk_body section_chunk_body c.body in
      let g = write_section cs.chunk_header section_chunk_header c.header f in
      subst (λ u. Written (write_section cs.chunk_body section_chunk_body c.body g) u old)
        (append_assoc (bytes_of xs) x y
          ∙ (ap (λ u. bytes_of xs ++ u)
                (sym (frame-append cs cs.chunk_header section_chunk_header c.header [] y))
              ∙ bytes_of-snoc xs (chunk_part c.header c.body)))
        (write_section-Written cs.chunk_body section_chunk_body c.body g (bytes_of xs ++ x) old (
          write_section-Written cs.chunk_header section_chunk_header c.header f (bytes_of xs) old
            h))

  write_chunk-Refines :
      (w : RecordFileWriter) (p : Plan)
      → Refines w p
      → Refines
          (record (write_chunk cs w.chunk_flush w) { chunk_flush = cleared })
          (plan_flushed false p)
  unfolding write_chunk
  write_chunk-Refines w p r =
      let earliest : Chunk → ℕ → ℕ = λ c b. if b == 0 then c.header.begin_time else b in
      let x = chunk_part p.waiting.header p.waiting.body in
      record {
        active = r.active;
        waiting = refl;
        written =
            subst
              (λ (c : Chunk).
                Written
                  (write_section cs.chunk_body section_chunk_body w.chunk_flush.body (
                    write_section cs.chunk_header section_chunk_header w.chunk_flush.header w.file))
                  (bytes_of (p.parts ++ chunk_part c.header c.body ∷ [])) old)
              r.waiting (chunk-Written w.chunk_flush w.file p.parts r.written);
        interval = r.interval;
        raw_size = r.raw_size;
        begins =
            ap (λ c. earliest c w.header.begin_time) r.waiting
            ∙ (ap (earliest p.waiting) r.begins
                ∙ sym (begin_after-append h0.begin_time p.parts (x ∷ [])));
      }

  flushed-Refines :
      (b : Bool) (w : RecordFileWriter) (p : Plan)
      → Refines w p
      → Refines (flushed cs b w) (plan_flushed b p)
  flushed-Refines true w p r = r
  flushed-Refines false w p r = write_chunk-Refines w p r

  pub flush-Refines :
      (w : RecordFileWriter) (p : Plan) → Refines w p → Refines (flush cs w) (plan_flush p)
  unfolding flush
  flush-Refines w p r =
      subst (λ b. Refines (flushed cs (is_empty_chunk w.chunk_flush) w) (plan_flushed b p))
        (ap is_empty_chunk r.waiting) (flushed-Refines (is_empty_chunk w.chunk_flush) w p r)

  pub swap-Refines : (w : RecordFileWriter) (p : Plan) → Refines w p → Refines (swap w) (exchange p)
  swap-Refines w p r = record {
    active = r.waiting;
    waiting = r.active;
    written = r.written;
    interval = r.interval;
    raw_size = r.raw_size;
    begins = r.begins;
  }

  need_flush-Refines :
      (w : RecordFileWriter) (p : Plan) (m : SingleMessage)
      → Refines w p
      → need_flush w.header (add_message w.chunk_active m).header m
        ≡ need_flush h0 (add_message p.active m).header m
  need_flush-Refines w p m r =
      let test : ℕ → ℕ → Chunk → Bool = λ i s c.
        (ltb 0 i && ltb i (m.time - (add_message c m).header.begin_time))
        || (ltb 0 s && ltb s (add_message c m).header.raw_size) in
      λ i. test (r.interval i) (r.raw_size i) (r.active i)

  write_message-Refines :
      (m : SingleMessage) (w : RecordFileWriter) (p : Plan)
      → Refines w p
      → Refines (write_message cs m w) (plan_message h0 m p)
  unfolding write_message
  write_message-Refines m w p r =
      let a = add_message p.active m in
      let n = need_flush-Refines w p m r in
      let v = record w {
        chunk_active = add_message w.chunk_active m;
        channel_message_number_map =
            assign m.channel_name
              (add_u64 (find_or m.channel_name 0 w.channel_message_number_map) 1)
              w.channel_message_number_map;
      } in
      let q : Refines v (record p { active = a }) = record {
        active = ap (λ c. add_message c m) r.active;
        waiting = r.waiting;
        written = r.written;
        interval = r.interval;
        raw_size = r.raw_size;
        begins = r.begins;
      } in
      elim (Bool-cases (need_flush h0 a.header m)) [
        | inl k ↦
            let e : need_flush w.header (add_message w.chunk_active m).header m ≡ true = n ∙ k in
            rw (e, k) (swap-Refines v (record p { active = a }) q)
        | inr k ↦
            let e : need_flush w.header (add_message w.chunk_active m).header m ≡ false = n ∙ k in
            rw (e, k) q
      ]

  step-Refines :
      (x : Step) (w : RecordFileWriter) (p : Plan)
      → Refines w p
      → Refines (perform cs x w) (plan_step h0 x p)
  step-Refines (put_channel c) w p r = write_channel-Refines c w p r
  step-Refines (put_message m) w p r = write_message-Refines m w p r
  step-Refines flush_pass w p r = flush-Refines w p r

  pub all-Refines :
      (xs : List Step) (w : RecordFileWriter) (p : Plan)
      → Refines w p
      → Refines (perform_all cs xs w) (plan_all h0 xs p)
  all-Refines [] w p r = r
  all-Refines (x ∷ xs) w p r =
      all-Refines xs (perform cs x w) (plan_step h0 x p) (step-Refines x w p r)

  pub opened-Refines : Refines (write_header cs h0 (opened h0 old)) begun
  unfolding write_header
  opened-Refines =
      let f : File = record { content = old; position = 0 } in
      record {
        active = refl;
        waiting = refl;
        written =
            subst (λ u. Written (write_header_section cs.header h0 f) u old)
              (sym (append-nil (header_bytes cs.header h0)))
              (write_header_section-Written cs.header h0 f);
        interval = refl;
        raw_size = refl;
        begins = refl;
      }
