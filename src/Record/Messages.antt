-- ===== src/Record/Messages.antt =====
-- ReadMessage goes through the messages of a file in their order.
use cyber_rt_standalone_r.Prelude.{
  ℕ, zero, suc, ◌+◌, ◌*◌, ◌≡◌, ◌≤◌, ◌<◌, ◌⊎◌, inl, inr, refl, sym, ap, subst, ◌∙◌, List, [], ◌∷◌,
  ◌++◌, false, ◌||◌, Option, some, none, if◌then◌else◌, ltb, length, length-drop, arith, Bool-cases,
}
use cyber_rt_standalone_r.Record.{SingleMessage, Header, ChunkBody, Index, Codecs, AreCodecs}
use cyber_rt_standalone_r.Record.File.{section_index}
use cyber_rt_standalone_r.Record.Reader.{
  RecordReader, hit, dry, scan, fuel_of, read_next_chunk, after_chunk, read_in_chunks, next_message,
}
use cyber_rt_standalone_r.Record.Read.{
  Part, channel_part, chunk_part, frame, Small, Within, AreFine, length-encode_all, length-frame,
}
use cyber_rt_standalone_r.Record.Chunks.{next_part, At, Stands, Finds, at_end, next_chunk-Finds}

-- The messages of a chunk that are not before the window.
abbrev pub since : ℕ → ChunkBody → ChunkBody
since begin_time [] = []
since begin_time (m ∷ ms) =
    if ltb m.time begin_time then since begin_time ms else m ∷ since begin_time ms

-- And of the chunks that are not.
abbrev pub visible : ℕ → List Part → ChunkBody
visible begin_time [] = []
visible begin_time (channel_part c ∷ xs) = visible begin_time xs
visible begin_time (chunk_part h b ∷ xs) =
    if ltb h.end_time begin_time
    then visible begin_time xs
    else since begin_time b ++ visible begin_time xs

abbrev pub first : {A : Type 0} → List A → Option A
first [] = none
first (x ∷ xs) = some x

abbrev pub others : {A : Type 0} → List A → List A
others [] = []
others (x ∷ xs) = xs

scan_lem :
    (begin_time end_time : ℕ) (ms : ChunkBody)
    → Within end_time ms
    → ((since begin_time ms ≡ []) × (scan begin_time end_time ms ≡ dry))
      ⊎ ((m : SingleMessage) × ((xs : ChunkBody) × ((scan begin_time end_time ms ≡ hit m xs)
              × (since begin_time ms ≡ m ∷ since begin_time xs)
              × Within end_time xs)))
unfolding scan
scan_lem begin_time end_time [] w = inl (refl, refl)
scan_lem begin_time end_time (m ∷ ms) (h, w) =
    let e : ltb end_time m.time ≡ false = ground (arith, h) in
    elim (Bool-cases (ltb m.time begin_time)) [
      | inl k ↦ rw (e, k) (scan_lem begin_time end_time ms w)
      | inr k ↦ inr (m, (ms, rw (e, k) (refl, refl, w)))
    ]

-- What the next chunk shows, and its place.
abbrev shown : ℕ → Option (ChunkBody × List Part) → ChunkBody
shown begin_time none = []
shown begin_time (some (b, xs)) = since begin_time b ++ visible begin_time xs

visible-next_part :
    (begin_time : ℕ) (xs : List Part)
    → visible begin_time xs ≡ shown begin_time (next_part begin_time xs)
visible-next_part begin_time [] = refl
visible-next_part begin_time (channel_part c ∷ xs) = visible-next_part begin_time xs
visible-next_part begin_time (chunk_part h b ∷ xs) = elim (Bool-cases (ltb h.end_time begin_time)) [
  | inl k ↦ rw k (visible-next_part begin_time xs)
  | inr k ↦ rw k refl
]

module _ (cs : Codecs) (begin_time end_time : ℕ) where
  abbrev Nearer : List Part → Option (ChunkBody × List Part) → Type 0
  Nearer xs none = Unit
  Nearer xs (some (b, ys)) = Within end_time b × (length ys < length xs)

  further :
      (x : Part) (xs : List Part) (o : Option (ChunkBody × List Part))
      → Nearer xs o
      → Nearer (x ∷ xs) o
  further x xs none n = tt
  further x xs (some (b, ys)) (w, l) = (w, omega (arith, l))

  next_part-Nearer : (xs : List Part) → AreFine cs end_time xs → Nearer xs (next_part begin_time xs)
  next_part-Nearer [] f = tt
  next_part-Nearer (channel_part c ∷ xs) (f, fs) =
      further (channel_part c) xs (next_part begin_time xs) (next_part-Nearer xs fs)
  next_part-Nearer (chunk_part h b ∷ xs) ((f, f', t, w), fs) =
      elim (Bool-cases (ltb h.end_time begin_time)) [
        | inl k ↦
            rw k (further (chunk_part h b) xs (next_part begin_time xs) (next_part-Nearer xs fs))
        | inr k ↦ rw k (w, omega arith)
      ]

-- The messages that calls of ReadMessage return up to the first that returns none, at most `fuel`.
abbrev pub collect : (RecordReader → ChunkBody) → Option SingleMessage × RecordReader → ChunkBody
collect next (none, r) = []
collect next (some m, r) = m ∷ next r

abbrev pub read_all : Codecs → ℕ → ℕ → ℕ → RecordReader → ChunkBody
read_all cs zero begin_time end_time r = []
read_all cs (suc fuel) begin_time end_time r =
    collect (read_all cs fuel begin_time end_time) (next_message cs begin_time end_time r)

module _ (cs : Codecs) (ks : AreCodecs cs) (begin_time end_time : ℕ) (is : Index) (tail : List ℕ)
    (si : Small cs.index is) (h0 : Header) (c0 : List ℕ) where
  -- A reader of a file that has the messages `ms` still to return.
  pub record Remains (ms : ChunkBody) (r : RecordReader) : Type 0 where
    pub parts : List Part
    pub stands : Stands cs ks begin_time end_time is tail si r parts
    pub fine : AreFine cs end_time parts
    pub within : Within end_time r.pending
    pub shows : since begin_time r.pending ++ visible begin_time parts ≡ ms
    pub header : r.header ≡ h0
    pub content : r.file.content ≡ c0

  abbrev pub Gives : ChunkBody → Option SingleMessage × RecordReader → Type 0
  Gives ms (o, r) = (o ≡ first ms) × Remains (others ms) r

  -- There are rounds enough.
  enough :
      (r : RecordReader) (xs : List Part)
      → At cs ks begin_time end_time is tail si r xs
      → 2 * length xs + 1 < fuel_of cs r
  enough r xs (e, h) = omega (
    arith,
    ap length h,
    length-drop r.file.position r.file.content,
    length-encode_all cs xs (frame cs.index section_index is tail),
    length-frame cs cs.index section_index is tail,
  )

  chunk_from :
      (r : RecordReader) (xs : List Part)
      → Stands cs ks begin_time end_time is tail si r xs
      → AreFine cs end_time xs
      → Finds cs ks begin_time end_time is tail si r
          (next_part begin_time xs)
          (read_next_chunk cs begin_time end_time r)
  unfolding read_next_chunk
  chunk_from r xs (inl a) f =
      next_chunk-Finds cs ks begin_time end_time is tail si (fuel_of cs r) xs r (enough r xs a) a f
  chunk_from r xs (inr (e, n)) f =
      subst
        (λ ys.
          Finds cs ks begin_time end_time is tail si r (next_part begin_time ys)
            (read_next_chunk cs begin_time end_time r))
        (sym n) (at_end cs ks begin_time end_time is tail si (length r.file.content) false r e)

  -- From the answer of ReadNextChunk on.
  after_chunk-Gives :
      (fuel : ℕ) (r : RecordReader) (xs : List Part) (o : Option (ChunkBody × List Part))
      (x : Option ChunkBody × RecordReader)
      → Finds cs ks begin_time end_time is tail si r o x
      → Nearer cs begin_time end_time xs o
      → r.header ≡ h0
      → r.file.content ≡ c0
      → r.pending ≡ []
      → length xs < suc fuel
      → ((r' : RecordReader) (ys : List Part)
          → Stands cs ks begin_time end_time is tail si r' ys
          → AreFine cs end_time ys
          → Within end_time r'.pending
          → r'.header ≡ h0
          → r'.file.content ≡ c0
          → length ys < fuel
          → Gives
              (since begin_time r'.pending ++ visible begin_time ys)
              (read_in_chunks cs fuel begin_time end_time r'))
      → Gives (shown begin_time o) (after_chunk cs (read_in_chunks cs fuel begin_time end_time) x)
  after_chunk-Gives fuel r xs none (o, r') (f, e, (u, k, v)) n a b p l ih =
      subst (λ y. Gives [] (after_chunk cs (read_in_chunks cs fuel begin_time end_time) (y, r')))
        (sym f)
        (
          refl,
          record {
            parts = [];
            stands = inr (e, refl);
            fine = tt;
            within = subst (Within end_time) (sym (k ∙ p)) tt;
            shows = ap (λ y. since begin_time y ++ []) (k ∙ p);
            header = u ∙ a;
            content = v ∙ b;
          },
        )
  after_chunk-Gives fuel r xs (some (c, ys)) (o, r') (f, s, (u, k, v), z) (w, n) a b p l ih =
      subst
        (λ y.
          Gives (since begin_time c ++ visible begin_time ys)
            (after_chunk cs (read_in_chunks cs fuel begin_time end_time) (y, r')))
        (sym f)
        (ih (record r' { pending = c }) ys (inl s) z w (u ∙ a) (v ∙ b) (omega (arith, n, l)))

  read_in_chunks-Gives :
      (fuel : ℕ) (r : RecordReader) (xs : List Part)
      → Stands cs ks begin_time end_time is tail si r xs
      → AreFine cs end_time xs
      → Within end_time r.pending
      → r.header ≡ h0
      → r.file.content ≡ c0
      → length xs < fuel
      → Gives
          (since begin_time r.pending ++ visible begin_time xs)
          (read_in_chunks cs fuel begin_time end_time r)
  unfolding read_in_chunks
  read_in_chunks-Gives zero r xs s f w a b l = absurd (omega (arith, l))
  read_in_chunks-Gives (suc fuel) r xs s f w a b l =
      let next = read_in_chunks cs fuel begin_time end_time in
      elim (scan_lem begin_time end_time r.pending w) [
        | inl (e, q) ↦
            rw (e, q, visible-next_part begin_time xs)
              (after_chunk-Gives fuel (record r { pending = [] }) xs (next_part begin_time xs) _
                (chunk_from (record r { pending = [] }) xs s f)
                (next_part-Nearer cs begin_time end_time xs f) a b refl l
                (read_in_chunks-Gives fuel))
        | inr (m, (ms, (q, e, v))) ↦
            rw (e, q)
              (
                refl,
                record {
                  parts = xs;
                  stands = s;
                  fine = f;
                  within = v;
                  shows = refl;
                  header = a;
                  content = b;
                },
              )
      ]

  few :
      (r : RecordReader) (xs : List Part)
      → Stands cs ks begin_time end_time is tail si r xs
      → length xs < fuel_of cs r
  few r xs (inl a) = omega (arith, enough r xs a)
  few r xs (inr (e, n)) = omega (arith, ap length n)

  -- A call of ReadMessage returns the next message, if there is one.
  next_message-Gives :
      (ms : ChunkBody) (r : RecordReader)
      → begin_time ≤ h0.end_time
      → h0.begin_time ≤ end_time
      → Remains ms r
      → Gives ms (next_message cs begin_time end_time r)
  unfolding next_message
  next_message-Gives ms r l u m =
      let e : (ltb r.header.end_time begin_time || ltb end_time r.header.begin_time) ≡ false =
        ground (arith, l, u, ap (λ h. h.end_time) m.header, ap (λ h. h.begin_time) m.header) in
      rw e (
        subst (λ xs. Gives xs (read_in_chunks cs (fuel_of cs r) begin_time end_time r)) m.shows
          (read_in_chunks-Gives (fuel_of cs r) r m.parts m.stands m.fine m.within m.header m.content
            (few r m.parts m.stands)))

  pub read_all-Remains :
      (fuel : ℕ) (ms : ChunkBody) (r : RecordReader)
      → begin_time ≤ h0.end_time
      → h0.begin_time ≤ end_time
      → Remains ms r
      → length ms < fuel
      → read_all cs fuel begin_time end_time r ≡ ms
  read_all-Remains zero ms r l u m h = absurd (omega (arith, h))
  read_all-Remains (suc fuel) [] r l u m h =
      let (e, k) = next_message-Gives [] r l u m in
      ap
        (λ o.
          collect (read_all cs fuel begin_time end_time)
            (o, (next_message cs begin_time end_time r).1))
        e
  read_all-Remains (suc fuel) (x ∷ ms) r l u m h =
      let (e, k) = next_message-Gives (x ∷ ms) r l u m in
      let r' = (next_message cs begin_time end_time r).1 in
      ap (λ o. collect (read_all cs fuel begin_time end_time) (o, r')) e
      ∙ ap (◌∷◌ x) (read_all-Remains fuel ms r' l u k (omega (arith, h)))
