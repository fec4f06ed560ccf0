-- ===== src/Record/Segments.antt =====
-- cyber/record/record_writer.cc: a recording that goes on in another file when one has grown over its size
-- or its interval. The number of a file in its name is `file_index`; what the k-th file held when it was
-- opened is `old k`. A hash map is walked in the order of its insertions.
use cyber_rt_standalone_r.Prelude.{
  ℕ, suc, ◌-◌, List, [], ◌∷◌, ◌++◌, Bool, true, false, ◌&&◌, ◌||◌, if◌then◌else◌, ltb, length,
  add_u64,
}
use cyber_rt_standalone_r.Discovery.Keys.{Key, find_or, assign, has}
use cyber_rt_standalone_r.Record.{SingleMessage, Header, Channel, Codecs}
use cyber_rt_standalone_r.Record.File.{File}
use cyber_rt_standalone_r.Record.Writer.{
  RecordFileWriter, opened, earlier, write_header, write_channel, write_message, flush, close,
}

pub record RecordWriter : Type 0 where
  pub file_writer : RecordFileWriter
  pub closed : List (ℕ × File)
  pub path : ℕ
  pub file_index : ℕ
  pub segment_raw_size : ℕ
  pub segment_begin_time : ℕ
  pub channel_message_number_map : List (Key × ℕ)
  pub channel_message_type_map : List (Key × Key)
  pub channel_proto_desc_map : List (Key × List ℕ)

-- Calls of the writer, and a pass of the flush thread of its file.
pub data Call : Type 0 where
  call_channel : Key → Key → List ℕ → Call
  call_message : SingleMessage → Call
  call_flush : Call

-- The channels that a new file begins with.
abbrev pub channels_of_maps : List (Key × ℕ) → List (Key × Key) → List (Key × List ℕ) → List Channel
channels_of_maps [] types descs = []
channels_of_maps ((name, n) ∷ m) types descs =
    record { name = name; message_type = find_or name [] types; proto_desc = find_or name [] descs }
    ∷ channels_of_maps m types descs

-- The number in the name of the next file.
abbrev pub next_file_index : ℕ → ℕ
next_file_index i = if ltb 99999 i then 0 else i

-- `OnNewMessage`.
abbrev pub on_new_message : Bool → Key → List (Key × ℕ) → List (Key × ℕ)
on_new_message true name m = assign name (add_u64 (find_or name 0 m) 1) m
on_new_message false name m = m

-- Whether a file is to be closed after a message.
abbrev pub is_over : Header → RecordWriter → SingleMessage → Bool
is_over h w m =
    (ltb 0 h.segment_interval && ltb h.segment_interval (m.time - w.segment_begin_time))
    || (ltb 0 h.segment_raw_size && ltb h.segment_raw_size w.segment_raw_size)

module _ (cs : Codecs) (h : Header) (old : ℕ → List ℕ) where
  abbrev pub write_channels : List Channel → RecordFileWriter → RecordFileWriter
  write_channels [] w = w
  write_channels (c ∷ channels) w = write_channels channels (write_channel cs c w)

  -- A file writer that has been opened and has written the header.
  abbrev pub begin_file : ℕ → RecordFileWriter
  begin_file k = write_header cs h (opened h (old k))

  -- `Open`.
  abbrev pub open_writer : RecordWriter
  open_writer = record {
    file_writer = begin_file 0;
    closed = [];
    path = 0;
    file_index = 1;
    segment_raw_size = 0;
    segment_begin_time = 0;
    channel_message_number_map = [];
    channel_message_type_map = [];
    channel_proto_desc_map = [];
  }

  -- The close of a file and `SplitOutfile`.
  unfoldable pub split_outfile : RecordWriter → RecordWriter
  split_outfile w =
      let closed = w.closed ++ (w.path, (close cs w.file_writer).file) ∷ [] in
      let channels =
        channels_of_maps w.channel_message_number_map w.channel_message_type_map
          w.channel_proto_desc_map in
      record w {
        file_writer = write_channels channels (begin_file (length closed));
        closed = closed;
        path = next_file_index w.file_index;
        file_index = suc (next_file_index w.file_index);
        segment_raw_size = 0;
        segment_begin_time = 0;
      }

  -- `WriteChannel`, by whether the channel is known, with `OnNewChannel`.
  abbrev pub new_channel : Bool → Key → Key → List ℕ → RecordWriter → RecordWriter
  new_channel true name message_type proto_desc w = w
  new_channel false name message_type proto_desc w = record w {
    file_writer =
        write_channel cs
          (record { name = name; message_type = message_type; proto_desc = proto_desc })
          w.file_writer;
    channel_message_number_map = assign name 0 w.channel_message_number_map;
    channel_message_type_map = assign name message_type w.channel_message_type_map;
    channel_proto_desc_map = assign name proto_desc w.channel_proto_desc_map;
  }

  -- `WriteMessage`, as far as the test.
  abbrev pub add_to_segment : SingleMessage → RecordWriter → RecordWriter
  add_to_segment m w = record w {
    file_writer = write_message cs m w.file_writer;
    segment_raw_size = add_u64 w.segment_raw_size (length m.content);
    segment_begin_time = earlier w.segment_begin_time m.time;
    channel_message_number_map =
        on_new_message (has m.channel_name w.channel_message_number_map) m.channel_name
          w.channel_message_number_map;
  }

  unfoldable pub record_message : SingleMessage → RecordWriter → RecordWriter
  record_message m w = let v = add_to_segment m w in if is_over h v m then split_outfile v else v

  abbrev pub call : Call → RecordWriter → RecordWriter
  call (call_channel name message_type proto_desc) w =
      new_channel (has name w.channel_message_number_map) name message_type proto_desc w
  call (call_message m) w = record_message m w
  call call_flush w = record w { file_writer = flush cs w.file_writer }

  abbrev pub call_all : List Call → RecordWriter → RecordWriter
  call_all [] w = w
  call_all (x ∷ xs) w = call_all xs (call x w)

  -- The files of a recording, with their numbers, in the order in which they are closed.
  unfoldable pub files_of : List Call → List (ℕ × File)
  files_of xs =
      let w = call_all xs open_writer in w.closed ++ (w.path, (close cs w.file_writer).file) ∷ []
