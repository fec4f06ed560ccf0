-- ===== src/Record.antt =====
-- cyber/record and the messages of cyber/proto/record.proto that its files are made of. Protocol buffers
-- are a library: a codec for each message is a parameter.
pub mod File
pub mod Writer
pub mod Reader
pub mod Sections
pub mod Written
pub mod Plan
pub mod Kept
pub mod Order
pub mod Refined
pub mod Closed
pub mod Opening
pub mod Timely
pub mod Window
pub mod Read
pub mod Chunks
pub mod Messages
pub mod RoundTrip
pub mod Segments
pub mod Split
pub mod Segmented
mod Samples
mod Tests
use cyber_rt_standalone_r.Prelude.{ℕ, ◌≡◌, List, Bool, Option, some, length}
use cyber_rt_standalone_r.Discovery.Keys.{Key}

-- A recorded message; the content is bytes.
pub record SingleMessage : Type 0 where
  pub channel_name : Key
  pub time : ℕ
  pub content : List ℕ

-- The versions and the compression, which nothing reads, are left out.
pub record Header : Type 0 where
  pub chunk_interval : ℕ
  pub segment_interval : ℕ
  pub index_position : ℕ
  pub chunk_number : ℕ
  pub channel_number : ℕ
  pub begin_time : ℕ
  pub end_time : ℕ
  pub message_number : ℕ
  pub size : ℕ
  pub is_complete : Bool
  pub chunk_raw_size : ℕ
  pub segment_raw_size : ℕ

pub record Channel : Type 0 where
  pub name : Key
  pub message_type : Key
  pub proto_desc : List ℕ

pub record ChunkHeader : Type 0 where
  pub begin_time : ℕ
  pub end_time : ℕ
  pub message_number : ℕ
  pub raw_size : ℕ

abbrev pub ChunkBody : Type 0
ChunkBody = List SingleMessage

pub record ChannelCache : Type 0 where
  pub message_number : ℕ
  pub name : Key
  pub message_type : Key
  pub proto_desc : List ℕ

-- A SingleIndex: its type is that of its cache, and the number is its position.
pub data SingleIndex : Type 0 where
  channel_index : ℕ → ChannelCache → SingleIndex
  chunk_header_index : ℕ → ChunkHeader → SingleIndex
  chunk_body_index : ℕ → ℕ → SingleIndex

abbrev pub Index : Type 0
Index = List SingleIndex

-- What protocol buffers offer for a message: `SerializeToZeroCopyStream` and `ParseFromCodedStream` with
-- a limit at the end of the bytes. `ByteSizeLong` is the length of the former.
pub record Codec (A : Type 0) : Type 0 where
  pub serialize : A → List ℕ
  pub parse : List ℕ → Option A

pub record IsCodec {A : Type 0} (c : Codec A) : Type 0 where
  pub parse-serialize : (a : A) → c.parse (c.serialize a) ≡ some a

pub record Codecs : Type 0 where
  pub header : Codec Header
  pub channel : Codec Channel
  pub chunk_header : Codec ChunkHeader
  pub chunk_body : Codec ChunkBody
  pub index : Codec Index

pub record AreCodecs (c : Codecs) : Type 0 where
  pub header : IsCodec c.header
  pub channel : IsCodec c.channel
  pub chunk_header : IsCodec c.chunk_header
  pub chunk_body : IsCodec c.chunk_body
  pub index : IsCodec c.index
