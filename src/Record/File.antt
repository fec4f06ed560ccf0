-- ===== src/Record/File.antt =====
-- cyber/record/file: a file descriptor as the bytes of its file and a position, and the sections of a
-- record file, each with its type and size in front. A write is taken to succeed.
use cyber_rt_standalone_r.Prelude.{
  ℕ, ◌+◌, ◌-◌, ◌^◌, List, ◌∷◌, ◌++◌, Bool, false, Option, some, none, if◌then◌else◌, ◌==◌, leb,
  length, take, drop, replicate,
}
use cyber_rt_standalone_r.Messages.Bytes.{to_bytes, of_bytes}
use cyber_rt_standalone_r.Record.{Codec}

pub record File : Type 0 where
  pub content : List ℕ
  pub position : ℕ

-- `SetPosition` to a place that is not negative.
abbrev pub set_position : ℕ → File → File
set_position p f = record f { position = p }

-- `write`: what stood there is replaced. The position is not behind the end.
unfoldable pub write_bytes : List ℕ → File → File
write_bytes bs f = record {
  content = take f.position f.content ++ (bs ++ drop (f.position + length bs) f.content);
  position = f.position + length bs;
}

-- `read` of at most `n` bytes.
unfoldable pub read_bytes : ℕ → File → List ℕ × File
read_bytes n f =
    let bs = take n (drop f.position f.content) in
    (bs, record f { position = f.position + length bs })

-- `SectionType`.
pub data SectionType : Type 0 where
  section_header : SectionType
  section_chunk_header : SectionType
  section_chunk_body : SectionType
  section_index : SectionType
  section_channel : SectionType

abbrev pub type_number : SectionType → ℕ
type_number section_header = 0
type_number section_chunk_header = 1
type_number section_chunk_body = 2
type_number section_index = 3
type_number section_channel = 4

-- The type in a file is any number; the others are invalid.
abbrev pub type_of : ℕ → Option SectionType
type_of n =
    if n == 0
    then some section_header
    else if n == 1
    then some section_chunk_header
    else if n == 2
    then some section_chunk_body
    else if n == 3
    then some section_index
    else if n == 4
    then some section_channel
    else none

pub record Section : Type 0 where
  pub type : ℕ
  pub size : ℕ

-- `sizeof(struct Section)`: four bytes of type, four of padding, eight of size.
abbrev pub section_size : ℕ
section_size = 16

unfoldable pub section_bytes : Section → List ℕ
section_bytes s = to_bytes 4 s.type ++ (to_bytes 4 0 ++ to_bytes 8 s.size)

unfoldable pub section_at : List ℕ → Section
section_at bs = record { type = of_bytes (take 4 bs); size = of_bytes (take 8 (drop 8 bs)) }

-- `HEADER_LENGTH`.
abbrev pub header_length : ℕ
header_length = 2048

-- The first bytes of the array `blank`.
unfoldable pub blank : ℕ → List ℕ
blank n = take n (b'0' ∷ replicate (header_length - 1) 0)

module _ {A : Type 0} (c : Codec A) where
  -- `WriteSection` of a message other than the header, without the size that it notes.
  unfoldable pub write_section : SectionType → A → File → File
  write_section t a f =
      let bs = c.serialize a in
      write_bytes bs
        (write_bytes (section_bytes (record { type = type_number t; size = length bs })) f)

  -- Of a header of at most 2048 bytes, at the start and with blanks up to its length.
  unfoldable pub write_header_section : A → File → File
  write_header_section a f =
      write_bytes (blank (header_length - length (c.serialize a)))
        (write_section section_header a (set_position 0 f))

  -- `ReadSection(size, message)`: the message, or `none` where it returns false. A stream of blocks of
  -- `size` bytes takes as many from the file, when `size` is not 0.
  abbrev pub checked : ℕ → Option A → Option A
  checked size none = none
  checked size (some a) = if length (c.serialize a) == size then some a else none

  unfoldable pub read_message : ℕ → File → Option A × File
  read_message size f =
      if leb (2 ^ 31) size
      then (none, f)
      else (let (bs, f') = read_bytes size f in
          (if length bs == size then checked size (c.parse bs) else none, f'))

-- `ReadSection(section)`: the section or `none`, whether the end was met, and the file.
abbrev pub section_read : List ℕ → Option Section × Bool
section_read bs =
    if length bs == section_size then (some (section_at bs), false) else (none, length bs == 0)

unfoldable pub read_section : File → Option Section × Bool × File
read_section f =
    let (bs, f') = read_bytes section_size f in let (s, e) = section_read bs in (s, e, f')

-- `SkipSection`; the sizes of a file are below 2^63.
abbrev pub skip_section : ℕ → File → File
skip_section size f = set_position (f.position + size) f
