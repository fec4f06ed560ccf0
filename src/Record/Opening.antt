-- ===== src/Record/Opening.antt =====
-- A reader opens a file whose header and index stand where they should.
use cyber_rt_standalone_r.Prelude.{
  ℕ, ◌-◌, ◌^◌, ◌≡◌, ◌≤◌, ◌<◌, refl, ap, ◌∙◌, List, [], ◌++◌, Bool, true, false, Option, some, none,
  if◌then◌else◌, ◌==◌, ==_iff, length, drop, arith,
}
use mathlib.Core.List.{append_assoc}
use cyber_rt_standalone_r.Record.{Header, Index, Codec, IsCodec, Codecs, AreCodecs}
use cyber_rt_standalone_r.Record.File.{
  File, Section, SectionType, section_header, section_index, type_number, section_bytes,
  read_section, read_message, set_position, header_length, blank,
}
use cyber_rt_standalone_r.Record.Sections.{rest, read_section-front, read_message-front}
use cyber_rt_standalone_r.Record.Reader.{
  RecordReader, reset_file, typed_message, channels_of, read_header, read_index, index_or_none,
  with_header, open_reader,
}
use cyber_rt_standalone_r.Record.Read.{frame, Small}
use cyber_rt_standalone_r.Record.Written.{header_bytes}

module _ {A : Type 0} (c : Codec A) (k : IsCodec c) where
  abbrev typed : SectionType → Option Section × Bool × File → Option A
  typed t (s, e, g) = typed_message (read_message c) t s g

  typed-front :
      (t : SectionType) (a : A) (f : File) (s : List ℕ)
      → type_number t < 2 ^ 32
      → Small c a
      → rest f ≡ frame c t a s
      → typed t (read_section f) ≡ some a
  typed-front t a f s b l h =
      let x : Section = record { type = type_number t; size = length (c.serialize a) } in
      let (g, (q, (m, n))) = read_section-front f x (c.serialize a ++ s) b (omega (arith, l)) h in
      let (g', (q', m')) = read_message-front c k g a s l m in
      let e : (type_number t == type_number t) ≡ true =
        (==_iff (type_number t) (type_number t)).1 refl in
      let v : (if type_number t == type_number t then (read_message c x.size g).0 else none)
          ≡ some a =
        rw e (ap (λ y. y.0) q') in
      ap (typed t) q ∙ v

module _ (cs : Codecs) (ks : AreCodecs cs) where
  pub read_header-front :
      (h : Header) (y : List ℕ)
      → length (cs.header.serialize h) ≤ 2048
      → read_header cs (record { content = header_bytes cs.header h ++ y; position = 0 }) ≡ some h
  unfolding read_header header_bytes
  read_header-front h y l =
      let f : File = record { content = header_bytes cs.header h ++ y; position = 0 } in
      let b = blank (header_length - length (cs.header.serialize h)) in
      let a = section_bytes (record { type = 0; size = length (cs.header.serialize h) }) in
      let u = cs.header.serialize h in
      typed-front cs.header ks.header section_header h f (b ++ y) (omega arith) (omega (arith, l)) (
        append_assoc (a ++ (u ++ [])) b y
        ∙ (append_assoc a (u ++ []) (b ++ y) ∙ ap (λ z. a ++ z) (append_assoc u [] (b ++ y))))

  pub read_index-front :
      (h : Header) (is : Index) (f : File) (s : List ℕ)
      → h.is_complete ≡ true
      → Small cs.index is
      → drop h.index_position f.content ≡ frame cs.index section_index is s
      → read_index cs h f ≡ some is
  unfolding read_index
  read_index-front h is f s c l p =
      let g = set_position h.index_position f in
      rw c (typed-front cs.index ks.index section_index is g s (omega arith) l p)

  -- The reader that has been opened.
  abbrev pub reader_of : Header → Index → List ℕ → RecordReader
  reader_of h is content = record {
    file = reset_file (record { content = content; position = 0 });
    header = h;
    index = is;
    channel_info = channels_of is [];
    pending = [];
    reach_end = false;
  }

  pub open_reader-front :
      (h : Header) (is : Index) (content y s : List ℕ)
      → content ≡ header_bytes cs.header h ++ y
      → length (cs.header.serialize h) ≤ 2048
      → h.is_complete ≡ true
      → Small cs.index is
      → drop h.index_position content ≡ frame cs.index section_index is s
      → open_reader cs content ≡ some (reader_of h is content)
  unfolding open_reader
  open_reader-front h is content y s e l c i p =
      let f : File = record { content = content; position = 0 } in
      let r : read_header cs f ≡ some h =
        ap (λ z. read_header cs (record { content = z; position = 0 })) e
        ∙ read_header-front h y l in
      let v : RecordReader = reader_of h is content in
      ap (λ o. with_header cs o f) r
      ∙ ap
          (λ o. some (record v {
            index = index_or_none cs o;
            channel_info = channels_of (index_or_none cs o) [];
          }))
          (read_index-front h is f s c i p)
