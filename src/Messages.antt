-- ===== src/Messages.antt =====
-- cyber/transport/message/message_info.cc and cyber/transport/shm/readable_info.cc: what travels beside a
-- message, as bytes. A string is a list of bytes; a null pointer is not among the arguments.
pub mod Bytes
pub mod RoundTrip
mod Tests
use cyber_rt_standalone_r.Prelude.{
  ℕ, ◌+◌, List, [], ◌∷◌, ◌++◌, Bool, true, false, not, Option, some, none, if◌then◌else◌, length,
  take, drop, ltb, ◌==◌,
}
use Bytes.{to_bytes, of_bytes}

pub record ReadableInfo : Type 0 where
  pub host_id : ℕ
  pub block_index : ℕ
  pub channel_id : ℕ

abbrev pub readable_size : ℕ
readable_size = 8 + 8 + 4

unfoldable pub serialize_readable : ReadableInfo → List ℕ
unfolding to_bytes
serialize_readable i = to_bytes 8 i.host_id ++ (to_bytes 4 i.block_index ++ to_bytes 8 i.channel_id)

-- What `DeserializeFrom` reads at its three positions.
abbrev pub readable_at : List ℕ → ReadableInfo
readable_at src = record {
  host_id = of_bytes (take 8 src);
  block_index = of_bytes (take 4 (drop 8 src));
  channel_id = of_bytes (take 8 (drop 12 src));
}

-- The result of `DeserializeFrom`, and the object after it.
unfoldable pub deserialize_readable : List ℕ → ReadableInfo → Bool × ReadableInfo
unfolding of_bytes
deserialize_readable src old =
    if length src == readable_size then (true, readable_at src) else (false, old)

-- An `Identity` is its 8 bytes, which its hash is computed from.
pub record MessageInfo : Type 0 where
  pub sender_id : List ℕ
  pub channel_id : ℕ
  pub seq_num : ℕ
  pub spare_id : List ℕ

abbrev pub id_size : ℕ
id_size = 8

abbrev pub message_size : ℕ
message_size = id_size + id_size + 8

unfoldable pub serialize_message : MessageInfo → List ℕ
unfolding to_bytes
serialize_message i = i.sender_id ++ (to_bytes 8 i.seq_num ++ i.spare_id)

-- `SerializeTo(dst, len)` on a buffer, or `none` where it returns false.
unfoldable pub serialize_into : MessageInfo → List ℕ → Option (List ℕ)
unfolding serialize_message
serialize_into i dst =
    if ltb (length dst) message_size
    then none
    else some (serialize_message i ++ drop message_size dst)

abbrev pub message_at : List ℕ → MessageInfo → MessageInfo
message_at src old = record old {
  sender_id = take id_size src;
  seq_num = of_bytes (take 8 (drop id_size src));
  spare_id = take id_size (drop (id_size + 8) src);
}

unfoldable pub deserialize_message : List ℕ → MessageInfo → Bool × MessageInfo
unfolding of_bytes
deserialize_message src old =
    if length src == message_size then (true, message_at src old) else (false, old)
