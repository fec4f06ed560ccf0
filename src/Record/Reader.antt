-- ===== src/Record/Reader.antt =====
-- cyber/record/file/record_file_reader.cc and cyber/record/record_reader.cc: a record file from its header
-- on. `pending` is the chunk from the message index on. Each round of a loop reads a section, so that
-- there are fewer rounds than bytes.
use cyber_rt_standalone_r.Prelude.{
  ℕ, zero, suc, ◌+◌, List, [], ◌∷◌, Bool, true, false, ◌||◌, Option, some, none, if◌then◌else◌,
  ◌==◌, ltb, length,
}
use cyber_rt_standalone_r.Discovery.Keys.{Key, find, assign, has}
use cyber_rt_standalone_r.Record.{
  SingleMessage, Header, Channel, ChunkHeader, ChunkBody, ChannelCache, channel_index, Index,
  Codecs,
}
use cyber_rt_standalone_r.Record.File.{
  File, Section, SectionType, section_header, section_chunk_header, section_chunk_body,
  section_index, section_channel, type_number, type_of, section_size, header_length, set_position,
  read_section, read_message, skip_section,
}

pub record RecordReader : Type 0 where
  pub file : File
  pub header : Header
  pub index : Index
  pub channel_info : List (Key × ChannelCache)
  pub pending : ChunkBody
  pub reach_end : Bool

-- The first section after the header.
abbrev pub reset_file : File → File
reset_file f = set_position (section_size + header_length) f

-- A section of a type and its message, or `none`.
abbrev pub typed_message :
    {A : Type 0} → (ℕ → File → Option A × File) → SectionType → Option Section → File → Option A
typed_message read t none f = none
typed_message read t (some s) f = if s.type == type_number t then (read s.size f).0 else none

-- `channel_info_.insert`: the first of a name stays.
abbrev pub insert_channel :
    Bool → ChannelCache → List (Key × ChannelCache) → List (Key × ChannelCache)
insert_channel true c m = m
insert_channel false c m = assign c.name c m

abbrev pub channels_of : Index → List (Key × ChannelCache) → List (Key × ChannelCache)
channels_of [] m = m
channels_of (channel_index p c ∷ is) m = channels_of is (insert_channel (has c.name m) c m)
channels_of (_ ∷ is) m = channels_of is m

-- What ReadMessage finds in the chunk: a message behind the end, one to return, or none.
pub data Scan : Type 0 where
  beyond : ChunkBody → Scan
  hit : SingleMessage → ChunkBody → Scan
  dry : Scan

unfoldable pub scan : ℕ → ℕ → ChunkBody → Scan
scan begin_time end_time [] = dry
scan begin_time end_time (m ∷ ms) =
    let rest = scan begin_time end_time ms in
    if ltb end_time m.time
    then beyond (m ∷ ms)
    else if ltb m.time begin_time
    then rest
    else hit m ms

-- What a round of ReadNextChunk comes to: a return of false, a chunk, or another round.
pub data Turn : Type 0 where
  stop : RecordReader → Turn
  found : ChunkBody → RecordReader → Turn
  again : Bool → RecordReader → Turn

module _ (cs : Codecs) where
  -- `ReadHeader`.
  unfoldable pub read_header : File → Option Header
  read_header f =
      let (s, e, g) = read_section f in typed_message (read_message cs.header) section_header s g

  -- `ReadIndex`.
  unfoldable pub read_index : Header → File → Option Index
  read_index h f =
      let (s, e, g) = read_section (set_position h.index_position f) in
      if h.is_complete then typed_message (read_message cs.index) section_index s g else none

  abbrev pub index_or_none : Option Index → Index
  index_or_none none = []
  index_or_none (some is) = is

  abbrev pub with_header : Option Header → File → Option RecordReader
  with_header none f = none
  with_header (some h) f =
      let is = index_or_none (read_index h f) in
      some (record {
        file = reset_file f;
        header = h;
        index = is;
        channel_info = channels_of is [];
        pending = [];
        reach_end = false;
      })

  -- The constructor on a file; `none` is a reader that is not valid.
  unfoldable pub open_reader : List ℕ → Option RecordReader
  open_reader content =
      let f : File = record { content = content; position = 0 } in with_header (read_header f) f

  -- By the message of a section.
  abbrev pub channel_turn : Bool → RecordReader → Option Channel × File → Turn
  channel_turn skip r (none, f) = stop (record r { file = f })
  channel_turn skip r (some c, f) = again skip (record r { file = f })

  abbrev pub chunk_header_turn : ℕ → ℕ → Bool → RecordReader → Option ChunkHeader × File → Turn
  chunk_header_turn begin_time end_time skip r (none, f) = stop (record r { file = f })
  chunk_header_turn begin_time end_time skip r (some h, f) =
      if ltb end_time h.begin_time
      then stop (record r { file = f })
      else again (ltb h.end_time begin_time || skip) (record r { file = f })

  abbrev pub chunk_body_turn : RecordReader → Option ChunkBody × File → Turn
  chunk_body_turn r (none, f) = stop (record r { file = f; pending = [] })
  chunk_body_turn r (some b, f) = found b (record r { file = f })

  -- The switch on a section's type, the reader's file standing behind the section.
  unfoldable pub switch : ℕ → ℕ → Bool → Option SectionType → ℕ → RecordReader → Turn
  switch begin_time end_time skip (some section_index) size r =
      again skip (record r { file = skip_section size r.file; reach_end = true })
  switch begin_time end_time skip (some section_channel) size r =
      channel_turn skip r (read_message cs.channel size r.file)
  switch begin_time end_time skip (some section_chunk_header) size r =
      chunk_header_turn begin_time end_time skip r (read_message cs.chunk_header size r.file)
  switch begin_time end_time true (some section_chunk_body) size r =
      again false (record r { file = skip_section size r.file })
  switch begin_time end_time false (some section_chunk_body) size r =
      chunk_body_turn r (read_message cs.chunk_body size r.file)
  switch begin_time end_time skip (some section_header) size r = stop r
  switch begin_time end_time skip none size r = stop r

  abbrev pub section_turn : ℕ → ℕ → Bool → RecordReader → Option Section × Bool × File → Turn
  section_turn begin_time end_time skip r (none, e, f) = stop (record r { file = f })
  section_turn begin_time end_time skip r (some s, e, f) =
      switch begin_time end_time skip (type_of s.type) s.size (record r { file = f })

  abbrev pub round : ℕ → ℕ → Bool → Bool → RecordReader → Turn
  round begin_time end_time skip true r = stop r
  round begin_time end_time skip false r =
      section_turn begin_time end_time skip r (read_section r.file)

  abbrev pub after_turn :
      (Bool → RecordReader → Option ChunkBody × RecordReader)
      → Turn
      → Option ChunkBody × RecordReader
  after_turn next (stop r) = (none, r)
  after_turn next (found b r) = (some b, r)
  after_turn next (again skip r) = next skip r

  -- The loop of ReadNextChunk.
  unfoldable pub next_chunk : ℕ → ℕ → ℕ → Bool → RecordReader → Option ChunkBody × RecordReader
  next_chunk zero begin_time end_time skip r = (none, r)
  next_chunk (suc fuel) begin_time end_time skip r =
      after_turn (next_chunk fuel begin_time end_time)
        (round begin_time end_time skip r.reach_end r)

  abbrev pub fuel_of : RecordReader → ℕ
  fuel_of r = suc (length r.file.content)

  unfoldable pub read_next_chunk : ℕ → ℕ → RecordReader → Option ChunkBody × RecordReader
  read_next_chunk begin_time end_time r = next_chunk (fuel_of r) begin_time end_time false r

  -- The rest of ReadMessage, by whether there is another chunk.
  abbrev pub after_chunk :
      (RecordReader → Option SingleMessage × RecordReader)
      → Option ChunkBody × RecordReader
      → Option SingleMessage × RecordReader
  after_chunk next (none, r) = (none, r)
  after_chunk next (some b, r) = next (record r { pending = b })

  abbrev pub after_scan :
      (RecordReader → Option SingleMessage × RecordReader)
      → ℕ
      → ℕ
      → RecordReader
      → Scan
      → Option SingleMessage × RecordReader
  after_scan next begin_time end_time r (beyond ms) = (none, record r { pending = ms })
  after_scan next begin_time end_time r (hit m ms) = (some m, record r { pending = ms })
  after_scan next begin_time end_time r dry =
      after_chunk next (read_next_chunk begin_time end_time (record r { pending = [] }))

  unfoldable pub read_in_chunks : ℕ → ℕ → ℕ → RecordReader → Option SingleMessage × RecordReader
  read_in_chunks zero begin_time end_time r = (none, r)
  read_in_chunks (suc fuel) begin_time end_time r =
      after_scan (read_in_chunks fuel begin_time end_time) begin_time end_time r
        (scan begin_time end_time r.pending)

  -- `ReadMessage` of a valid reader.
  unfoldable pub next_message : ℕ → ℕ → RecordReader → Option SingleMessage × RecordReader
  next_message begin_time end_time r =
      if ltb r.header.end_time begin_time || ltb end_time r.header.begin_time
      then (none, r)
      else read_in_chunks (fuel_of r) begin_time end_time r

-- `Reset`.
abbrev pub reset : RecordReader → RecordReader
reset r = record r { file = reset_file r.file; pending = []; reach_end = false }

-- `GetMessageNumber`, by what `find` gives.
abbrev pub number_of : Option ChannelCache → ℕ
number_of none = 0
number_of (some c) = c.message_number

abbrev pub get_message_number : Key → RecordReader → ℕ
get_message_number channel_name r = number_of (find channel_name r.channel_info)
