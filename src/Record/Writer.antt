-- ===== src/Record/Writer.antt =====
-- cyber/record/file/record_file_writer.cc: a writer fills one chunk while the flush thread writes the
-- other one to the file. A call of WriteMessage is a step, and so is a pass of the loop of Flush, which
-- holds its lock throughout; steps come in any order.
use cyber_rt_standalone_r.Prelude.{
  ℕ, ◌-◌, List, [], ◌∷◌, ◌++◌, Bool, true, false, ◌&&◌, ◌||◌, if◌then◌else◌, ◌==◌, ltb, length,
  add_u64,
}
use cyber_rt_standalone_r.Discovery.Keys.{Key, find_or, assign}
use cyber_rt_standalone_r.Record.{
  SingleMessage, Header, Channel, ChunkHeader, ChunkBody, SingleIndex, channel_index,
  chunk_header_index, chunk_body_index, Index, Codecs,
}
use cyber_rt_standalone_r.Record.File.{
  File, section_chunk_header, section_chunk_body, section_index, section_channel, write_section,
  write_header_section,
}

pub record Chunk : Type 0 where
  pub header : ChunkHeader
  pub body : ChunkBody

-- `clear`.
abbrev pub cleared : Chunk
cleared = record {
  header = record { begin_time = 0; end_time = 0; message_number = 0; raw_size = 0 };
  body = [];
}

-- The beginning after the first two tests of `add`.
abbrev pub earlier : ℕ → ℕ → ℕ
earlier begin_time time =
    let b = if begin_time == 0 then time else begin_time in if ltb time b then time else b

-- `add`.
abbrev pub add_header : ChunkHeader → SingleMessage → ChunkHeader
add_header h m = record {
  begin_time = earlier h.begin_time m.time;
  end_time = if ltb h.end_time m.time then m.time else h.end_time;
  message_number = add_u64 h.message_number 1;
  raw_size = add_u64 h.raw_size (length m.content);
}

abbrev pub add_message : Chunk → SingleMessage → Chunk
add_message c m = record { header = add_header c.header m; body = c.body ++ m ∷ [] }

-- `empty`.
abbrev pub is_empty_chunk : Chunk → Bool
is_empty_chunk c = c.header.message_number == 0

pub record RecordFileWriter : Type 0 where
  pub file : File
  pub header : Header
  pub index : Index
  pub chunk_active : Chunk
  pub chunk_flush : Chunk
  pub channel_message_number_map : List (Key × ℕ)

-- `Open` on a file that holds `old`.
abbrev pub opened : Header → List ℕ → RecordFileWriter
opened header old = record {
  file = record { content = old; position = 0 };
  header = header;
  index = [];
  chunk_active = cleared;
  chunk_flush = cleared;
  channel_message_number_map = [];
}

-- What `WriteSection` notes in the header.
abbrev pub noted : Header → File → Header
noted h f = record h { size = f.position }

-- The header and the index entries of a chunk that has been written.
abbrev pub count_chunk : Header → ChunkHeader → Header
count_chunk h c = record h {
  chunk_number = add_u64 h.chunk_number 1;
  begin_time = if h.begin_time == 0 then c.begin_time else h.begin_time;
  end_time = c.end_time;
  message_number = add_u64 h.message_number c.message_number;
}

abbrev pub channel_entry : ℕ → Channel → SingleIndex
channel_entry position c = channel_index position (record {
  message_number = 0;
  name = c.name;
  message_type = c.message_type;
  proto_desc = c.proto_desc;
})

-- An index entry with the number of messages of its channel.
abbrev pub with_number : List (Key × ℕ) → SingleIndex → SingleIndex
with_number counts (channel_index p c) =
    channel_index p (record c { message_number = find_or c.name c.message_number counts })
with_number counts i = i

abbrev pub with_numbers : List (Key × ℕ) → Index → Index
with_numbers counts [] = []
with_numbers counts (i ∷ is) = with_number counts i ∷ with_numbers counts is

-- Whether the active chunk is to be flushed.
abbrev pub need_flush : Header → ChunkHeader → SingleMessage → Bool
need_flush h c m =
    (ltb 0 h.chunk_interval && ltb h.chunk_interval (m.time - c.begin_time))
    || (ltb 0 h.chunk_raw_size && ltb h.chunk_raw_size c.raw_size)

-- `chunk_flush_.swap(chunk_active_)`.
abbrev pub swap : RecordFileWriter → RecordFileWriter
swap w = record w { chunk_active = w.chunk_flush; chunk_flush = w.chunk_active }

-- Calls of the writer and passes of the flush thread.
pub data Step : Type 0 where
  put_channel : Channel → Step
  put_message : SingleMessage → Step
  flush_pass : Step

module _ (cs : Codecs) where
  unfoldable pub write_header : Header → RecordFileWriter → RecordFileWriter
  write_header header w =
      let f = write_header_section cs.header header w.file in
      record w { file = f; header = noted header f }

  unfoldable pub write_channel : Channel → RecordFileWriter → RecordFileWriter
  write_channel c w =
      let f = write_section cs.channel section_channel c w.file in
      let h = noted w.header f in
      record w {
        file = f;
        header = record h { channel_number = add_u64 h.channel_number 1 };
        index = w.index ++ channel_entry w.file.position c ∷ [];
      }

  unfoldable pub write_chunk : Chunk → RecordFileWriter → RecordFileWriter
  write_chunk c w =
      let f = write_section cs.chunk_header section_chunk_header c.header w.file in
      let g = write_section cs.chunk_body section_chunk_body c.body f in
      record w {
        file = g;
        header = count_chunk (noted w.header g) c.header;
        index =
            w.index
            ++ chunk_header_index w.file.position c.header
              ∷ chunk_body_index f.position (length c.body)
              ∷ [];
      }

  unfoldable pub write_message : SingleMessage → RecordFileWriter → RecordFileWriter
  write_message m w =
      let a = add_message w.chunk_active m in
      let n = add_u64 (find_or m.channel_name 0 w.channel_message_number_map) 1 in
      let w' = record w {
        chunk_active = a;
        channel_message_number_map = assign m.channel_name n w.channel_message_number_map;
      } in
      if need_flush w.header a.header m then swap w' else w'

  -- A pass of the loop of `Flush`.
  abbrev pub flushed : Bool → RecordFileWriter → RecordFileWriter
  flushed true w = w
  flushed false w = let w' = write_chunk w.chunk_flush w in record w' { chunk_flush = cleared }

  unfoldable pub flush : RecordFileWriter → RecordFileWriter
  flush w = flushed (is_empty_chunk w.chunk_flush) w

  unfoldable pub write_index : RecordFileWriter → RecordFileWriter
  write_index w =
      let index = with_numbers w.channel_message_number_map w.index in
      let h = record w.header { index_position = w.file.position } in
      let f = write_section cs.index section_index index w.file in
      record w { file = f; header = noted h f; index = index }

  -- `Close`: the passes of the flush thread that it waits for, with the last swap between them.
  unfoldable pub close : RecordFileWriter → RecordFileWriter
  close w =
      let v = write_index (flush (swap (flush w))) in
      write_header (record v.header { is_complete = true }) v

  abbrev pub perform : Step → RecordFileWriter → RecordFileWriter
  perform (put_channel c) w = write_channel c w
  perform (put_message m) w = write_message m w
  perform flush_pass w = flush w

  abbrev pub perform_all : List Step → RecordFileWriter → RecordFileWriter
  perform_all [] w = w
  perform_all (x ∷ xs) w = perform_all xs (perform x w)

  -- A file from its opening to its closing.
  unfoldable pub write_file : Header → List ℕ → List Step → File
  write_file header old xs = (close (perform_all xs (write_header header (opened header old)))).file
