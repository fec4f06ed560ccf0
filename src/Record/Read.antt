-- ===== src/Record/Read.antt =====
-- The chunks of a file are found one after the other, up to the index.
use cyber_rt_standalone_r.Prelude.{
  ℕ, ◌+◌, ◌*◌, ◌^◌, ◌≡◌, ◌≤◌, ◌<◌, refl, ap, ◌∙◌, List, [], ◌∷◌, ◌++◌, Bool, true, false, ◌||◌,
  some, ltb, length, length-append, arith,
}
use cyber_rt_standalone_r.Record.{Channel, ChunkHeader, ChunkBody, Index, Codec, Codecs, AreCodecs}
use cyber_rt_standalone_r.Record.File.{
  File, Section, SectionType, section_header, section_chunk_header, section_chunk_body,
  section_index, section_channel, type_number, section_bytes,
}
use cyber_rt_standalone_r.Record.Sections.{
  rest, Moved, length-section_bytes, read_section-front, read_message-front, skip_section-front,
}
use cyber_rt_standalone_r.Record.Reader.{
  RecordReader, Turn, found, again, channel_turn, chunk_header_turn, chunk_body_turn, switch,
  section_turn, round,
}

-- What stands between the header and the index of a file.
pub data Part : Type 0 where
  channel_part : Channel → Part
  chunk_part : ChunkHeader → ChunkBody → Part

-- A message as a section, in front of `s`.
abbrev pub frame : {A : Type 0} → Codec A → SectionType → A → List ℕ → List ℕ
frame c t a s =
    section_bytes (record { type = type_number t; size = length (c.serialize a) })
    ++ (c.serialize a ++ s)

-- The sizes that a section may have.
abbrev pub Small : {A : Type 0} → Codec A → A → Type 0
Small c a = length (c.serialize a) < 2 ^ 31

abbrev pub Within : ℕ → ChunkBody → Type 0
Within end_time [] = Unit
Within end_time (m ∷ ms) = (m.time ≤ end_time) × Within end_time ms

module _ (cs : Codecs) where
  abbrev pub encode : Part → List ℕ → List ℕ
  encode (channel_part c) s = frame cs.channel section_channel c s
  encode (chunk_part h b) s =
      frame cs.chunk_header section_chunk_header h (frame cs.chunk_body section_chunk_body b s)

  abbrev pub encode_all : List Part → List ℕ → List ℕ
  encode_all [] s = s
  encode_all (x ∷ xs) s = encode x (encode_all xs s)

  -- The parts, the index and what may stand behind it.
  abbrev pub stream : List Part → Index → List ℕ → List ℕ
  stream xs is s = encode_all xs (frame cs.index section_index is s)

  -- The messages of a part, its sizes and its times are in range.
  abbrev pub IsFine : ℕ → Part → Type 0
  IsFine end_time (channel_part c) = Small cs.channel c
  IsFine end_time (chunk_part h b) =
      Small cs.chunk_header h
      × Small cs.chunk_body b
      × (h.begin_time ≤ end_time)
      × Within end_time b

  abbrev pub AreFine : ℕ → List Part → Type 0
  AreFine end_time [] = Unit
  AreFine end_time (x ∷ xs) = IsFine end_time x × AreFine end_time xs

  pub length-frame :
      {A : Type 0} (c : Codec A) (t : SectionType) (a : A) (s : List ℕ)
      → 16 + length s ≤ length (frame c t a s)
  length-frame c t a s =
      let x : Section = record { type = type_number t; size = length (c.serialize a) } in
      omega (
        arith,
        length-append (section_bytes x) (c.serialize a ++ s),
        length-append (c.serialize a) s,
        length-section_bytes x,
      )

  pub length-encode_all :
      (xs : List Part) (s : List ℕ) → 2 * length xs + length s ≤ length (encode_all xs s)
  length-encode_all [] s = omega arith
  length-encode_all (channel_part c ∷ xs) s =
      omega
        (arith, length-encode_all xs s, length-frame cs.channel section_channel c (encode_all xs s))
  length-encode_all (chunk_part h b ∷ xs) s =
      let u = frame cs.chunk_body section_chunk_body b (encode_all xs s) in
      omega (
        arith,
        length-encode_all xs s,
        length-frame cs.chunk_header section_chunk_header h u,
        length-frame cs.chunk_body section_chunk_body b (encode_all xs s),
      )

  module _ (ks : AreCodecs cs) (begin_time end_time : ℕ) where
    type_small : (t : SectionType) → type_number t < 2 ^ 32
    type_small section_header = omega arith
    type_small section_chunk_header = omega arith
    type_small section_chunk_body = omega arith
    type_small section_index = omega arith
    type_small section_channel = omega arith

    -- A round of the loop, with the file behind the section's head.
    switched :
        {A : Type 0} (c : Codec A) (t : SectionType) (a : A) (s : List ℕ) (skip : Bool)
        (r : RecordReader)
        → Small c a
        → r.reach_end ≡ false
        → rest r.file ≡ frame c t a s
        → (g : File) × ((round cs begin_time end_time skip r.reach_end r
              ≡ section_turn cs begin_time end_time skip r
                  (some (record { type = type_number t; size = length (c.serialize a) }), false, g))
            × Moved r.file (c.serialize a ++ s) g)
    switched c t a s skip r l e h =
        let x : Section = record { type = type_number t; size = length (c.serialize a) } in
        let (g, (q, m)) =
          read_section-front r.file x (c.serialize a ++ s) (type_small t) (omega (arith, l)) h in
        (
          g,
          (
            ap (λ b. round cs begin_time end_time skip b r) e
                ∙ ap (section_turn cs begin_time end_time skip r) q,
            m,
          ),
        )

    -- A round has moved the reader to the file `g`, which has `s` before it.
    abbrev pub Turns : RecordReader → Bool → Bool → List ℕ → (RecordReader → Turn) → Type 0
    Turns r skip e s turn =
        (g : File) × ((round cs begin_time end_time skip r.reach_end r
            ≡ turn (record r { file = g; reach_end = e }))
          × Moved r.file s g)

    pub round-channel :
        (c : Channel) (s : List ℕ) (skip : Bool) (r : RecordReader)
        → Small cs.channel c
        → r.reach_end ≡ false
        → rest r.file ≡ frame cs.channel section_channel c s
        → Turns r skip r.reach_end s (again skip)
    unfolding switch
    round-channel c s skip r l e h =
        let (g, (q, (m, n))) = switched cs.channel section_channel c s skip r l e h in
        let (g', (q', (m', n'))) = read_message-front cs.channel ks.channel g c s l m in
        (g', (q ∙ ap (channel_turn cs skip (record r { file = g })) q', (m', n' ∙ n)))

    pub round-chunk_header :
        (h : ChunkHeader) (s : List ℕ) (skip : Bool) (r : RecordReader)
        → Small cs.chunk_header h
        → h.begin_time ≤ end_time
        → r.reach_end ≡ false
        → rest r.file ≡ frame cs.chunk_header section_chunk_header h s
        → Turns r skip r.reach_end s (again (ltb h.end_time begin_time || skip))
    unfolding switch
    round-chunk_header h s skip r l b e w =
        let (g, (q, (m, n))) = switched cs.chunk_header section_chunk_header h s skip r l e w in
        let (g', (q', (m', n'))) = read_message-front cs.chunk_header ks.chunk_header g h s l m in
        let k : ltb end_time h.begin_time ≡ false = ground (arith, b) in
        let turn = chunk_header_turn cs begin_time end_time skip (record r { file = g }) in
        let v : turn (some h, g')
            ≡ again (ltb h.end_time begin_time || skip) (record r { file = g' }) =
          rw k refl in
        (g', (q ∙ (ap turn q' ∙ v), (m', n' ∙ n)))

    pub round-chunk_body :
        (b : ChunkBody) (s : List ℕ) (r : RecordReader)
        → Small cs.chunk_body b
        → r.reach_end ≡ false
        → rest r.file ≡ frame cs.chunk_body section_chunk_body b s
        → Turns r false r.reach_end s (found b)
    unfolding switch
    round-chunk_body b s r l e w =
        let (g, (q, (m, n))) = switched cs.chunk_body section_chunk_body b s false r l e w in
        let (g', (q', (m', n'))) = read_message-front cs.chunk_body ks.chunk_body g b s l m in
        (g', (q ∙ ap (chunk_body_turn cs (record r { file = g })) q', (m', n' ∙ n)))

    pub round_skipped :
        (b : ChunkBody) (s : List ℕ) (r : RecordReader)
        → Small cs.chunk_body b
        → r.reach_end ≡ false
        → rest r.file ≡ frame cs.chunk_body section_chunk_body b s
        → Turns r true r.reach_end s (again false)
    unfolding switch
    round_skipped b s r l e w =
        let (g, (q, (m, n))) = switched cs.chunk_body section_chunk_body b s true r l e w in
        let (m', n') = skip_section-front cs.chunk_body ks.chunk_body g b s m in
        (_, (q, (m', n' ∙ n)))

    pub round-index :
        (is : Index) (s : List ℕ) (skip : Bool) (r : RecordReader)
        → Small cs.index is
        → r.reach_end ≡ false
        → rest r.file ≡ frame cs.index section_index is s
        → Turns r skip true s (again skip)
    unfolding switch
    round-index is s skip r l e w =
        let (g, (q, (m, n))) = switched cs.index section_index is s skip r l e w in
        let (m', n') = skip_section-front cs.index ks.index g is s m in (_, (q, (m', n' ∙ n)))
