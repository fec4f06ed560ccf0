-- ===== src/Record/RoundTrip.antt =====
-- A file that a writer has closed, as a reader reads it.
use cyber_rt_standalone_r.Prelude.{
  ℕ, ◌^◌, ◌≡◌, ◌≤◌, ◌<◌, inl, refl, sym, ap, subst, ◌∙◌, List, [], ◌++◌, Bool, true, some, length,
  drop, drop-append, length-append, arith,
}
use mathlib.Core.List.{append_assoc}
use cyber_rt_standalone_r.Record.{SingleMessage, Header, Index, Codecs, AreCodecs}
use cyber_rt_standalone_r.Record.File.{section_index}
use cyber_rt_standalone_r.Record.Writer.{Step, write_file}
use cyber_rt_standalone_r.Record.Reader.{RecordReader, open_reader}
use cyber_rt_standalone_r.Record.Read.{frame, Small, Within, encode_all, stream}
use cyber_rt_standalone_r.Record.Written.{header_bytes, length-header_bytes, encode_all-append}
use cyber_rt_standalone_r.Record.Plan.{parts_of, begun, bodies, messages_put, count}
use cyber_rt_standalone_r.Record.Kept.{count-parts_of}
use cyber_rt_standalone_r.Record.Order.{is_prompt, bodies-parts_of}
use cyber_rt_standalone_r.Record.Messages.{since, read_all, read_all-Remains}
use cyber_rt_standalone_r.Record.Closed.{
  last_index, last_header, behind, write_file-content, last_header-index_position,
  last_header-begin_time,
}
use cyber_rt_standalone_r.Record.Opening.{reader_of, open_reader-front}
use cyber_rt_standalone_r.Record.Timely.{
  AreSized, parts_of-AreTimely, parts_of-AreFine, begin_after-parts_of,
}
use cyber_rt_standalone_r.Record.Window.{visible-bodies, count-since_of, length-since_of}

-- What is asked of the sizes: the headers fit in front of the file, the parts in sections that are not empty,
-- and the index in a section.
pub record Fits (cs : Codecs) (h : Header) (old : List ℕ) (xs : List Step) : Type 0 where
  pub header : length (cs.header.serialize h) ≤ 2048
  pub closing : length (cs.header.serialize (last_header cs h old xs)) ≤ 2048
  pub index : Small cs.index (last_index cs h old xs)
  pub parts : AreSized cs (parts_of h xs)
  pub steps : length xs < 2 ^ 64

-- And of the times: the window begins before the end that the file notes, and no message is behind it.
pub record InWindow (cs : Codecs) (h : Header) (old : List ℕ) (xs : List Step)
    (begin_time end_time : ℕ) : Type 0 where
  pub begins : begin_time ≤ (last_header cs h old xs).end_time
  pub ends : h.begin_time ≤ end_time
  pub within : Within end_time (messages_put xs)

module _ (cs : Codecs) (ks : AreCodecs cs) (h : Header) (old : List ℕ) (xs : List Step) where
  abbrev closed : List ℕ
  closed = (write_file cs h old xs).content

  abbrev tail : List ℕ
  tail = behind cs h old xs

  abbrev is : Index
  is = last_index cs h old xs

  -- The reader of the closed file.
  abbrev opened_reader : RecordReader
  opened_reader = reader_of cs ks (last_header cs h old xs) is closed

  -- Where the index stands.
  index-frame :
      Fits cs h old xs
      → drop (last_header cs h old xs).index_position closed ≡ frame cs.index section_index is tail
  index-frame f =
      let a = header_bytes cs.header (last_header cs h old xs) in
      let e = encode_all cs (parts_of h xs) [] in
      let t = frame cs.index section_index is tail in
      let la = length-header_bytes cs.header (last_header cs h old xs) f.closing in
      let lb = length-header_bytes cs.header h f.header in
      let n : (last_header cs h old xs).index_position ≡ length (a ++ e) =
        omega (arith, last_header-index_position cs h old xs, la, lb, length-append a e) in
      let c : closed ≡ (a ++ e) ++ t =
        write_file-content cs h old xs f.header f.closing
        ∙ (ap (λ y. a ++ y) (encode_all-append cs (parts_of h xs) [] t)
            ∙ sym (append_assoc a e t)) in
      ap (λ m. drop m closed) n
      ∙ (ap (drop (length (a ++ e))) c ∙ drop-append (length (a ++ e)) (a ++ e) t refl)

  open_reader-write_file : Fits cs h old xs → open_reader cs closed ≡ some opened_reader
  open_reader-write_file f =
      let x = last_header cs h old xs in
      open_reader-front cs ks x is closed (stream cs (parts_of h xs) is tail) tail
        (write_file-content cs h old xs f.header f.closing) f.closing refl f.index (index-frame f)

  module _ (b e : ℕ) where
    read_all-parts_of :
        (n : ℕ)
        → Fits cs h old xs
        → InWindow cs h old xs b e
        → length (since b (bodies (parts_of h xs))) < n
        → read_all cs n b e opened_reader ≡ since b (bodies (parts_of h xs))
    read_all-parts_of n f w l =
        let x = last_header cs h old xs in
        let a = header_bytes cs.header x in
        let y = stream cs (parts_of h xs) is tail in
        let la = length-header_bytes cs.header x f.closing in
        let s : drop 2064 closed ≡ y =
          ap (drop 2064) (write_file-content cs h old xs f.header f.closing)
          ∙ drop-append 2064 a y la in
        read_all-Remains cs ks b e is tail f.index x closed n (since b (bodies (parts_of h xs)))
          opened_reader w.begins
          (subst (λ m. m ≤ e) (sym (last_header-begin_time cs h old xs))
            (begin_after-parts_of e h xs w.within w.ends))
          (record {
            parts = parts_of h xs;
            stands = inl (refl, s);
            fine = parts_of-AreFine e cs h xs w.within f.parts;
            within = tt;
            shows = visible-bodies b e (parts_of h xs) (parts_of-AreTimely e h xs w.within);
            header = refl;
            content = refl;
          })
          l

    read_all-length :
        (n : ℕ)
        → Fits cs h old xs
        → InWindow cs h old xs b e
        → length xs < n
        → read_all cs n b e opened_reader ≡ since b (bodies (parts_of h xs))
    read_all-length n f w l = read_all-parts_of n f w (
        omega (
          arith,
          l,
          length-since_of b (bodies (parts_of h xs)) xs (λ g. count-parts_of g h xs f.steps),
        ))

-- A file that is written by fewer than 2^64 steps over whatever stood in it, closed, and opened by a reader,
-- where each chunk was written out before the next one was full, the first and the last header are of at
-- most 2048 bytes and sections of 1 to 2^31 - 1, and protocol buffers parse what they serialised: for a window that begins by the end
-- that the file notes and behind whose end no message was written, calls of ReadMessage, more than there
-- were steps, return the messages from the window's begin on, in the order of writing, and then none.
pub read_all-write_file :
    (cs : Codecs) (ks : AreCodecs cs) (h : Header) (old : List ℕ) (xs : List Step) (b e n : ℕ)
    → Fits cs h old xs
    → InWindow cs h old xs b e
    → length xs < n
    → is_prompt h xs begun ≡ true
    → (r : RecordReader) × ((open_reader cs (write_file cs h old xs).content ≡ some r)
        × (read_all cs n b e r ≡ since b (messages_put xs)))
read_all-write_file cs ks h old xs b e n f w l q = (
  opened_reader cs ks h old xs,
  (
    open_reader-write_file cs ks h old xs f,
    read_all-length cs ks h old xs b e n f w l ∙ ap (since b) (bodies-parts_of h xs f.steps q),
  ),
)

-- The same without the condition on when chunks are written out: whatever passes the flush thread takes, the
-- calls return the messages from the window's begin on, each as often as it was written, in some order.
pub count-read_all-write_file :
    (cs : Codecs) (ks : AreCodecs cs) (h : Header) (old : List ℕ) (xs : List Step) (b e n : ℕ)
    → Fits cs h old xs
    → InWindow cs h old xs b e
    → length xs < n
    → (r : RecordReader) × ((open_reader cs (write_file cs h old xs).content ≡ some r)
        × ((f : SingleMessage → Bool)
            → count f (read_all cs n b e r) ≡ count f (since b (messages_put xs))))
count-read_all-write_file cs ks h old xs b e n f w l = (
  opened_reader cs ks h old xs,
  (
    open_reader-write_file cs ks h old xs f,
    λ g.
        ap (count g) (read_all-length cs ks h old xs b e n f w l)
        ∙ count-since_of b (bodies (parts_of h xs)) (messages_put xs)
            (λ k. count-parts_of k h xs f.steps) g,
  ),
)
