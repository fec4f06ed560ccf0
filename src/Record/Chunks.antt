-- ===== src/Record/Chunks.antt =====
-- The loop of ReadNextChunk finds the next chunk that the window does not rule out.
use cyber_rt_standalone_r.Prelude.{
  ℕ, zero, suc, ◌+◌, ◌*◌, ◌≡◌, ◌<◌, ◌⊎◌, inl, inr, refl, sym, subst, ◌∙◌, List, [], ◌∷◌, Bool, true,
  false, Option, some, none, if◌then◌else◌, ltb, length, arith, Bool-cases,
}
use cyber_rt_standalone_r.Record.{ChunkBody, Index, Codecs, AreCodecs}
use cyber_rt_standalone_r.Record.File.{File, section_chunk_body}
use cyber_rt_standalone_r.Record.Sections.{rest}
use cyber_rt_standalone_r.Record.Reader.{RecordReader, again, round, after_turn, next_chunk}
use cyber_rt_standalone_r.Record.Read.{
  Part, channel_part, chunk_part, frame, Small, stream, AreFine, round-channel, round-chunk_header,
  round-chunk_body, round_skipped, round-index,
}

-- The next chunk in some parts, and the parts behind it.
abbrev pub next_part : ℕ → List Part → Option (ChunkBody × List Part)
next_part begin_time [] = none
next_part begin_time (channel_part c ∷ xs) = next_part begin_time xs
next_part begin_time (chunk_part h b ∷ xs) =
    let later = next_part begin_time xs in if ltb h.end_time begin_time then later else some (b, xs)

module _ (cs : Codecs) (ks : AreCodecs cs) (begin_time end_time : ℕ) (is : Index) (tail : List ℕ)
    (si : Small cs.index is) where
  -- A reader before some parts, or behind the index.
  abbrev pub At : RecordReader → List Part → Type 0
  At r xs = (r.reach_end ≡ false) × (rest r.file ≡ stream cs xs is tail)

  abbrev pub Stands : RecordReader → List Part → Type 0
  Stands r xs = (At r xs) ⊎ ((r.reach_end ≡ true) × (xs ≡ []))

  -- The same file, header and chunk.
  abbrev pub Same : RecordReader → RecordReader → Type 0
  Same r r' = (r'.header ≡ r.header) × (r'.pending ≡ r.pending) × (r'.file.content ≡ r.file.content)

  abbrev pub Finds :
      RecordReader → Option (ChunkBody × List Part) → Option ChunkBody × RecordReader → Type 0
  Finds r none (o, r') = (o ≡ none) × (r'.reach_end ≡ true) × Same r r'
  Finds r (some (b, xs)) (o, r') = (o ≡ some b) × At r' xs × Same r r' × AreFine cs end_time xs

  keeps_file :
      (r r' : RecordReader) (e : Bool) (g : File) (o : Option (ChunkBody × List Part))
      (x : Option ChunkBody × RecordReader)
      → g.content ≡ r.file.content
      → Finds (record r { file = g; reach_end = e }) o x
      → Finds r o x
  keeps_file r r' e g none (o, x) n (f, u, (v, k, w)) = (f, u, (v, k, w ∙ n))
  keeps_file r r' e g (some (b, xs)) (o, x) n (f, u, (v, k, w), z) = (f, u, (v, k, w ∙ n), z)

  -- One round, and what the other rounds find.
  round-Finds :
      (r : RecordReader) (fuel : ℕ) (skip skip' e : Bool) (g : File)
      (o : Option (ChunkBody × List Part))
      → round cs begin_time end_time skip r.reach_end r
        ≡ again skip' (record r { file = g; reach_end = e })
      → g.content ≡ r.file.content
      → Finds
          (record r { file = g; reach_end = e })
          o
          (next_chunk cs fuel begin_time end_time skip' (record r { file = g; reach_end = e }))
      → Finds r o (next_chunk cs (suc fuel) begin_time end_time skip r)
  unfolding next_chunk
  round-Finds r fuel skip skip' e g o q n f =
      subst (λ t. Finds r o (after_turn cs (next_chunk cs fuel begin_time end_time) t)) (sym q)
        (keeps_file r r e g o _ n f)

  -- A reader that has met the index.
  pub at_end :
      (fuel : ℕ) (skip : Bool) (r : RecordReader)
      → r.reach_end ≡ true
      → Finds r none (next_chunk cs (suc fuel) begin_time end_time skip r)
  unfolding next_chunk
  at_end fuel skip r e =
      subst
        (λ b. Finds r none (
          after_turn cs (next_chunk cs fuel begin_time end_time)
            (round cs begin_time end_time skip b r)))
        (sym e) (refl, e, (refl, refl, refl))

  -- A chunk's body, read or skipped.
  found_body :
      (fuel : ℕ) (b : ChunkBody) (xs : List Part) (r : RecordReader)
      → Small cs.chunk_body b
      → r.reach_end ≡ false
      → rest r.file ≡ frame cs.chunk_body section_chunk_body b (stream cs xs is tail)
      → AreFine cs end_time xs
      → Finds r (some (b, xs)) (next_chunk cs (suc fuel) begin_time end_time false r)
  unfolding next_chunk
  found_body fuel b xs r l e h f =
      let (g, (q, (m, n))) =
        round-chunk_body cs ks begin_time end_time b (stream cs xs is tail) r l e h in
      subst (λ t. Finds r (some (b, xs)) (after_turn cs (next_chunk cs fuel begin_time end_time) t))
        (sym q) (refl, (e, m), (refl, refl, n), f)

  pub next_chunk-Finds :
      (fuel : ℕ) (xs : List Part) (r : RecordReader)
      → 2 * length xs + 1 < fuel
      → At r xs
      → AreFine cs end_time xs
      → Finds r (next_part begin_time xs) (next_chunk cs fuel begin_time end_time false r)
  next_chunk-Finds zero xs r l a f = absurd (omega arith)
  next_chunk-Finds (suc zero) xs r l a f = absurd (omega arith)
  next_chunk-Finds (suc (suc fuel)) [] r l (e, h) f =
      let (g, (q, (m, n))) = round-index cs ks begin_time end_time is tail false r si e h in
      round-Finds r (suc fuel) false false true g none q n
        (at_end fuel false (record r { file = g; reach_end = true }) refl)
  next_chunk-Finds (suc (suc fuel)) (channel_part c ∷ xs) r l (e, h) (f, fs) =
      let (g, (q, (m, n))) =
        round-channel cs ks begin_time end_time c (stream cs xs is tail) false r f e h in
      round-Finds r (suc fuel) false false r.reach_end g (next_part begin_time xs) q n
        (next_chunk-Finds (suc fuel) xs (record r { file = g }) (omega (arith, l)) (e, m) fs)
  next_chunk-Finds (suc (suc fuel)) (chunk_part c b ∷ xs) r l (e, h) ((f, f', t, w), fs) =
      let body = frame cs.chunk_body section_chunk_body b (stream cs xs is tail) in
      let (g, (q, (m, n))) = round-chunk_header cs ks begin_time end_time c body false r f t e h in
      let r' = record r { file = g } in
      elim (Bool-cases (ltb c.end_time begin_time)) [
        | inl k ↦
            let (g', (q', (m', n'))) =
              round_skipped cs ks begin_time end_time b (stream cs xs is tail) r' f' e m in
            rw k (
              round-Finds r (suc fuel) false true r.reach_end g (next_part begin_time xs)
                (q ∙ rw k refl) n
                (round-Finds r' fuel true false r.reach_end g' (next_part begin_time xs) q' n' (
                  next_chunk-Finds fuel xs (record r { file = g' }) (omega (arith, l)) (e, m') fs)))
        | inr k ↦ rw k (
            round-Finds r (suc fuel) false false r.reach_end g (some (b, xs)) (q ∙ rw k refl) n
              (found_body fuel b xs r' f' e m fs))
      ]
