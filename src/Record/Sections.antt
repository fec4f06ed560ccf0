-- ===== src/Record/Sections.antt =====
-- Sections that stand in a file are read back, with anything behind them.
use cyber_rt_standalone_r.Prelude.{
  ℕ, ◌+◌, ◌^◌, ◌≡◌, ◌<◌, refl, sym, ap, ◌∙◌, List, ◌++◌, true, false, some, none, if◌then◌else◌,
  ◌==◌, ==_iff, leb, length, length-append, take, drop, take-append, drop-append, drop-drop,
  take_all, arith,
}
use cyber_rt_standalone_r.Messages.Bytes.{to_bytes, of_bytes, length-to_bytes, of_bytes-to_bytes}
use cyber_rt_standalone_r.Record.{Codec, IsCodec}
use cyber_rt_standalone_r.Record.File.{
  File, Section, section_bytes, section_at, read_bytes, read_section, read_message, checked,
  section_read, set_position, skip_section,
}

-- What stands in a file from its position on.
abbrev pub rest : File → List ℕ
rest f = drop f.position f.content

-- A file later on, with the same content.
abbrev pub Moved : File → List ℕ → File → Type 0
Moved f s g = (rest g ≡ s) × (g.content ≡ f.content)

pub length-section_bytes : (s : Section) → length (section_bytes s) ≡ 16
unfolding section_bytes
length-section_bytes s = omega (
  arith,
  length-append (to_bytes 4 s.type) (to_bytes 4 0 ++ to_bytes 8 s.size),
  length-append (to_bytes 4 0) (to_bytes 8 s.size),
  length-to_bytes 4 s.type,
  length-to_bytes 4 0,
  length-to_bytes 8 s.size,
)

section_at-section_bytes :
    (s : Section) → s.type < 2 ^ 32 → s.size < 2 ^ 64 → section_at (section_bytes s) ≡ s
unfolding section_at section_bytes
section_at-section_bytes s ht hs =
    let a = to_bytes 4 s.type in
    let b = to_bytes 4 0 in
    let c = to_bytes 8 s.size in
    let d : drop 8 (a ++ (b ++ c)) ≡ c =
      drop-drop 4 4 (a ++ (b ++ c))
      ∙ (ap (drop 4) (drop-append 4 a (b ++ c) (length-to_bytes 4 s.type))
          ∙ drop-append 4 b c (length-to_bytes 4 0)) in
    let t =
      ap of_bytes (take-append 4 a (b ++ c) (length-to_bytes 4 s.type))
      ∙ of_bytes-to_bytes 4 s.type ht in
    let z =
      ap (λ x. of_bytes (take 8 x)) d
      ∙ (ap of_bytes (take_all 8 c (omega (arith, length-to_bytes 8 s.size)))
          ∙ of_bytes-to_bytes 8 s.size hs) in
    λ i. record { type = t i; size = z i }

-- The position behind what has been read.
rest-after :
    (f : File) (a s : List ℕ) (n : ℕ)
    → rest f ≡ a ++ s
    → n ≡ length a
    → Moved f s (set_position (f.position + n) f)
rest-after f a s n h e =
    (drop-drop f.position n f.content ∙ (ap (drop n) h ∙ drop-append n a s (sym e)), refl)

read_bytes-front :
    (f : File) (a s : List ℕ) (n : ℕ) → rest f ≡ a ++ s → length a ≡ n → (read_bytes n f).0 ≡ a
unfolding read_bytes
read_bytes-front f a s n h e = ap (take n) h ∙ take-append n a s e

pub read_section-front :
    (f : File) (x : Section) (s : List ℕ)
    → x.type < 2 ^ 32
    → x.size < 2 ^ 64
    → rest f ≡ section_bytes x ++ s
    → (g : File) × ((read_section f ≡ (some x, false, g)) × Moved f s g)
unfolding read_section read_bytes
read_section-front f x s ht hs h =
    let b = section_bytes x in
    let l = length-section_bytes x in
    let e = read_bytes-front f b s 16 h l in
    let v : section_read b ≡ (some x, false) =
      rw l (λ i. (some (section_at-section_bytes x ht hs i), false)) in
    let u = ap section_read e ∙ v in
    let n = ap length e in
    (_, ((λ i. ((u i).0, (u i).1, (read_bytes 16 f).1)), rest-after f b s _ h n))

module _ {A : Type 0} (c : Codec A) (k : IsCodec c) where
  pub read_message-front :
      (f : File) (a : A) (s : List ℕ)
      → length (c.serialize a) < 2 ^ 31
      → rest f ≡ c.serialize a ++ s
      → (g : File) × ((read_message c (length (c.serialize a)) f ≡ (some a, g)) × Moved f s g)
  unfolding read_message read_bytes
  read_message-front f a s hs h =
      let b = c.serialize a in
      let n = length b in
      let small : leb (2 ^ 31) n ≡ false = ground (arith, hs) in
      let q : (n == n) ≡ true = (==_iff n n).1 refl in
      let e = read_bytes-front f b s n h refl in
      let v : checked c n (c.parse b) ≡ some a =
        ap (checked c n) (k.parse-serialize a) ∙ rw q refl in
      let w : (if length b == n then checked c n (c.parse b) else none) ≡ some a = rw q v in
      let u = ap (λ x. if length x == n then checked c n (c.parse x) else none) e ∙ w in
      let m = ap length e in
      ((read_bytes n f).1, (rw small (λ i. (u i, (read_bytes n f).1)), rest-after f b s _ h m))

  -- A section that is skipped.
  pub skip_section-front :
      (f : File) (a : A) (s : List ℕ)
      → rest f ≡ c.serialize a ++ s
      → Moved f s (skip_section (length (c.serialize a)) f)
  skip_section-front f a s h = rest-after f (c.serialize a) s _ h refl
