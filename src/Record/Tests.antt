-- ===== src/Record/Tests.antt =====
-- Runs of the writer and the reader on small files, and the theorems at them.
use cyber_rt_standalone_r.Prelude.{ℕ, ◌≡◌, refl, List, [], ◌∷◌, false, Bool, some, length, arith}
use cyber_rt_standalone_r.Discovery.Keys.{key_eq, find, assign}
use cyber_rt_standalone_r.Messages.Bytes.{to_bytes}
use cyber_rt_standalone_r.Record.{SingleMessage, Header, Channel}
use cyber_rt_standalone_r.Record.File.{
  write_bytes, section_bytes, blank, write_section, write_header_section,
}
use cyber_rt_standalone_r.Record.Writer.{
  Step, put_channel, put_message, flush_pass, write_header, write_channel, write_chunk,
  write_message, flush, write_file,
}
use cyber_rt_standalone_r.Record.Reader.{RecordReader, open_reader}
use cyber_rt_standalone_r.Record.Plan.{parts_of, begun, bodies, count}
use cyber_rt_standalone_r.Record.Order.{is_prompt}
use cyber_rt_standalone_r.Record.Messages.{read_all}
use cyber_rt_standalone_r.Record.RoundTrip.{
  Fits, InWindow, read_all-write_file, count-read_all-write_file,
}
use cyber_rt_standalone_r.Record.Segments.{
  Call, call_channel, call_message, call_flush, split_outfile, record_message, files_of,
}
use cyber_rt_standalone_r.Record.Samples.{samples, samples-AreCodecs}

abbrev h : Header
h = record {
  chunk_interval = 20;
  segment_interval = 0;
  index_position = 0;
  chunk_number = 0;
  channel_number = 0;
  begin_time = 0;
  end_time = 0;
  message_number = 0;
  size = 0;
  is_complete = false;
  chunk_raw_size = 0;
  segment_raw_size = 0;
}

abbrev channel : Channel
channel = record { name = 7 ∷ []; message_type = 8 ∷ []; proto_desc = [] }

abbrev message : ℕ → SingleMessage
message t = record { channel_name = 7 ∷ []; time = t; content = t ∷ [] }

abbrev prompt_steps : List Step
prompt_steps =
    put_channel channel
    ∷ put_message (message 10)
    ∷ put_message (message 40)
    ∷ flush_pass
    ∷ put_message (message 50)
    ∷ put_message (message 90)
    ∷ []

-- Two chunks are full before the flush thread has written either.
abbrev hasty_steps : List Step
hasty_steps =
    put_message (message 10)
    ∷ put_message (message 40)
    ∷ put_message (message 50)
    ∷ put_message (message 90)
    ∷ put_message (message 91)
    ∷ flush_pass
    ∷ []

abbrev times : List SingleMessage → List ℕ
times [] = []
times (m ∷ ms) = m.time ∷ times ms

-- The last message then stands in the first chunk.
hasty_order : times (bodies (parts_of h hasty_steps)) ≡ 10 ∷ 40 ∷ 91 ∷ 50 ∷ 90 ∷ []
hasty_order = refl

not_prompt : is_prompt h hasty_steps begun ≡ false
not_prompt = refl

abbrev old : List ℕ
old = 1 ∷ 2 ∷ 3 ∷ []

prompt-Fits : Fits samples h old prompt_steps
unfolding write_header write_channel write_chunk write_message flush write_section
    write_header_section write_bytes section_bytes blank to_bytes find assign key_eq
prompt-Fits = record {
  header = omega arith;
  closing = omega arith;
  index = omega arith;
  parts = (
    (omega arith, omega arith),
    (
      ((omega arith, omega arith), (omega arith, omega arith)),
      (((omega arith, omega arith), (omega arith, omega arith)), tt),
    ),
  );
  steps = omega arith;
}

prompt-InWindow : InWindow samples h old prompt_steps 20 95
unfolding write_header write_channel write_chunk write_message flush write_section
    write_header_section write_bytes section_bytes blank to_bytes find assign key_eq
prompt-InWindow = record {
  begins = omega arith;
  ends = omega arith;
  within = (omega arith, (omega arith, (omega arith, (omega arith, tt))));
}

read_all-write_file_example :
    (r : RecordReader) × ((open_reader samples (write_file samples h old prompt_steps).content
        ≡ some r)
      × (read_all samples 7 20 95 r ≡ message 40 ∷ message 50 ∷ message 90 ∷ []))
read_all-write_file_example =
    read_all-write_file samples samples-AreCodecs h old prompt_steps 20 95 7 prompt-Fits
      prompt-InWindow (omega arith) refl

hasty-Fits : Fits samples h old hasty_steps
unfolding write_header write_channel write_chunk write_message flush write_section
    write_header_section write_bytes section_bytes blank to_bytes find assign key_eq
hasty-Fits = record {
  header = omega arith;
  closing = omega arith;
  index = omega arith;
  parts = (
    ((omega arith, omega arith), (omega arith, omega arith)),
    (((omega arith, omega arith), (omega arith, omega arith)), tt),
  );
  steps = omega arith;
}

hasty-InWindow : InWindow samples h old hasty_steps 20 95
unfolding write_header write_channel write_chunk write_message flush write_section
    write_header_section write_bytes section_bytes blank to_bytes find assign key_eq
hasty-InWindow = record {
  begins = omega arith;
  ends = omega arith;
  within = (omega arith, (omega arith, (omega arith, (omega arith, (omega arith, tt)))));
}

count-read_all-write_file_example :
    (r : RecordReader) × ((open_reader samples (write_file samples h old hasty_steps).content
        ≡ some r)
      × ((f : SingleMessage → Bool)
          → count f (read_all samples 7 20 95 r)
            ≡ count f (message 40 ∷ message 50 ∷ message 90 ∷ message 91 ∷ [])))
count-read_all-write_file_example =
    count-read_all-write_file samples samples-AreCodecs h old hasty_steps 20 95 7 hasty-Fits
      hasty-InWindow (omega arith)

abbrev segmented : Header
segmented = record h { segment_raw_size = 1 }

abbrev nothing : ℕ → List ℕ
nothing k = []

abbrev calls : List Call
calls =
    call_channel (7 ∷ []) (8 ∷ []) []
    ∷ call_message (message 10)
    ∷ call_message (message 40)
    ∷ call_flush
    ∷ call_message (message 50)
    ∷ []

-- The second message closes the first file.
two_files : length (files_of samples segmented nothing calls) ≡ 2
unfolding files_of record_message split_outfile find assign key_eq
two_files = refl
