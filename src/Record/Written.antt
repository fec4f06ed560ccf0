-- ===== src/Record/Written.antt =====
-- What writes leave in a file.
use cyber_rt_standalone_r.Prelude.{
  ℕ, suc, ◌+◌, ◌-◌, ◌≡◌, ◌≤◌, refl, sym, ap, subst, ◌∙◌, List, [], ◌∷◌, ◌++◌, length, length-append,
  take, drop, take-append, drop-append, drop-drop, length-replicate, replicate, length-take, arith,
}
use mathlib.Core.List.{append_assoc, append-nil}
use cyber_rt_standalone_r.Record.{Codec, Codecs}
use cyber_rt_standalone_r.Record.File.{
  File, Section, SectionType, section_header, section_chunk_header, section_chunk_body,
  section_channel, type_number, section_bytes, write_bytes, write_section, write_header_section,
  header_length, blank, set_position,
}
use cyber_rt_standalone_r.Record.Sections.{length-section_bytes}
use cyber_rt_standalone_r.Record.Read.{Part, channel_part, chunk_part, frame, encode, encode_all}

-- The bytes `w` stand in front of a file that held `old`, and the position is behind them.
pub record Written (f : File) (w old : List ℕ) : Type 0 where
  pub content : f.content ≡ w ++ drop (length w) old
  pub position : f.position ≡ length w

abbrev pub framed : {A : Type 0} → Codec A → SectionType → A → List ℕ
framed c t a = frame c t a []

drop_behind :
    (w bs old : List ℕ)
    → drop (length w + length bs) (w ++ drop (length w) old) ≡ drop (length (w ++ bs)) old
drop_behind w bs old =
    drop-drop (length w) (length bs) (w ++ drop (length w) old)
    ∙ (ap (drop (length bs)) (drop-append (length w) w (drop (length w) old) refl)
        ∙ (sym (drop-drop (length w) (length bs) old)
            ∙ ap (λ n. drop n old) (sym (length-append w bs))))

pub write_bytes-Written :
    (f : File) (w old bs : List ℕ) → Written f w old → Written (write_bytes bs f) (w ++ bs) old
unfolding write_bytes
write_bytes-Written f w old bs h = record {
  content =
      ap (λ p. take p f.content ++ (bs ++ drop (p + length bs) f.content)) h.position
      ∙ (ap (λ c. take (length w) c ++ (bs ++ drop (length w + length bs) c)) h.content
          ∙ (ap (λ x. x ++ (bs ++ drop (length w + length bs) (w ++ drop (length w) old)))
                (take-append (length w) w (drop (length w) old) refl)
              ∙ (ap (λ y. w ++ (bs ++ y)) (drop_behind w bs old)
                  ∙ sym (append_assoc w bs (drop (length (w ++ bs)) old)))));
  position = omega (arith, h.position, length-append w bs);
}

length-blanks : (k n : ℕ) → n ≤ suc k → length {A = ℕ} (take n (b'0' ∷ replicate k 0)) ≡ n
length-blanks k n h =
    let z : ℕ = 0 in
    let b : List ℕ = b'0' ∷ replicate k z in
    length-take n b (omega (arith, h, length-replicate k z))

length-blank : (n : ℕ) → n ≤ 2048 → length (blank n) ≡ n
unfolding blank
length-blank n h = length-blanks (header_length - 1) n h

module _ {A : Type 0} (c : Codec A) where
  pub write_section-Written :
      (t : SectionType) (a : A) (f : File) (w old : List ℕ)
      → Written f w old
      → Written (write_section c t a f) (w ++ framed c t a) old
  unfolding write_section
  write_section-Written t a f w old h =
      let x : Section = record { type = type_number t; size = length (c.serialize a) } in
      let v =
        write_bytes-Written _ (w ++ section_bytes x) old (c.serialize a)
          (write_bytes-Written f w old (section_bytes x) h) in
      subst (λ u. Written (write_section c t a f) u old)
        (append_assoc w (section_bytes x) (c.serialize a)
          ∙ ap (λ y. w ++ (section_bytes x ++ y)) (sym (append-nil (c.serialize a))))
        v

  -- The header with its blanks.
  unfoldable pub header_bytes : A → List ℕ
  header_bytes a = framed c section_header a ++ blank (header_length - length (c.serialize a))

  pub length-header_bytes : (a : A) → length (c.serialize a) ≤ 2048 → length (header_bytes a) ≡ 2064
  unfolding header_bytes
  length-header_bytes a h =
      let x : Section = record {
        type = type_number section_header;
        size = length (c.serialize a);
      } in
      omega (
        arith,
        length-append (framed c section_header a) (blank (header_length - length (c.serialize a))),
        length-blank (header_length - length (c.serialize a)) (omega arith),
        length-append (section_bytes x) (c.serialize a ++ []),
        length-append (c.serialize a) [],
        length-section_bytes x,
      )

  pub write_header_section-Written :
      (a : A) (f : File) → Written (write_header_section c a f) (header_bytes a) f.content
  unfolding write_header_section header_bytes
  write_header_section-Written a f =
      write_bytes-Written _ (framed c section_header a) f.content
        (blank (header_length - length (c.serialize a)))
        (write_section-Written section_header a (set_position 0 f) [] f.content
          (record { content = refl; position = refl }))

module _ (cs : Codecs) where
  pub frame-append :
      {A : Type 0} (c : Codec A) (k : SectionType) (a : A) (s t : List ℕ)
      → frame c k a (s ++ t) ≡ frame c k a s ++ t
  frame-append c k a s t =
      let b = section_bytes (record { type = type_number k; size = length (c.serialize a) }) in
      ap (λ y. b ++ y) (sym (append_assoc (c.serialize a) s t))
      ∙ sym (append_assoc b (c.serialize a ++ s) t)

  encode-append : (x : Part) (s t : List ℕ) → encode cs x (s ++ t) ≡ encode cs x s ++ t
  encode-append (channel_part c) s t = frame-append cs.channel section_channel c s t
  encode-append (chunk_part h b) s t =
      ap (frame cs.chunk_header section_chunk_header h)
        (frame-append cs.chunk_body section_chunk_body b s t)
      ∙ frame-append cs.chunk_header section_chunk_header h
          (frame cs.chunk_body section_chunk_body b s) t

  -- More bytes behind some parts.
  pub encode_all-append :
      (xs : List Part) (s t : List ℕ) → encode_all cs xs (s ++ t) ≡ encode_all cs xs s ++ t
  encode_all-append [] s t = refl
  encode_all-append (x ∷ xs) s t =
      ap (encode cs x) (encode_all-append xs s t) ∙ encode-append x (encode_all cs xs s) t

  pub encode_all-snoc :
      (xs ys : List Part) (s : List ℕ)
      → encode_all cs (xs ++ ys) s ≡ encode_all cs xs (encode_all cs ys s)
  encode_all-snoc [] ys s = refl
  encode_all-snoc (x ∷ xs) ys s = ap (encode cs x) (encode_all-snoc xs ys s)
