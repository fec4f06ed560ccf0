-- ===== src/Messages/RoundTrip.antt =====
-- What is written is read back.
use cyber_rt_standalone_r.Prelude.{
  ℕ, ◌+◌, ◌^◌, ◌≤◌, ◌<◌, ◌≡◌, sym, ap, ◌∙◌, List, ◌++◌, true, some, length, length-append, take,
  take_all, take-append, drop-append, drop, length-drop, arith,
}
use mathlib.Core.List.{append_assoc}
use cyber_rt_standalone_r.Messages.{
  ReadableInfo, serialize_readable, deserialize_readable, MessageInfo, serialize_message,
  serialize_into, deserialize_message,
}
use cyber_rt_standalone_r.Messages.Bytes.{to_bytes, of_bytes, length-to_bytes, of_bytes-to_bytes}

-- Three fields one after the other, by the widths of the first two.
module _ (n m k : ℕ) (a b c : List ℕ) (p : length a ≡ n) (q : length b ≡ m) (r : length c ≡ k) where
  second : drop n (a ++ (b ++ c)) ≡ b ++ c
  second = drop-append n a (b ++ c) p

  take_second : take m (drop n (a ++ (b ++ c))) ≡ b
  take_second = ap (take m) second ∙ take-append m b c q

  drop_second : drop (n + m) (a ++ (b ++ c)) ≡ c
  drop_second =
      ap (drop (n + m)) (sym (append_assoc a b c))
      ∙ drop-append (n + m) (a ++ b) c (omega (arith, length-append a b))

  take_third : take k (drop (n + m) (a ++ (b ++ c))) ≡ c
  take_third = ap (take k) drop_second ∙ take_all k c (omega arith)

  length_three : length (a ++ (b ++ c)) ≡ n + m + k
  length_three = omega (arith, length-append a (b ++ c), length-append b c)

-- What a process announces in shared memory is what another reads: host, block and channel, within
-- the widths of their types.
pub deserialize_readable-serialize_readable :
    (i old : ReadableInfo)
    → i.host_id < 2 ^ 64
    → i.block_index < 2 ^ 32
    → i.channel_id < 2 ^ 64
    → deserialize_readable (serialize_readable i) old ≡ (true, i)
unfolding serialize_readable deserialize_readable
deserialize_readable-serialize_readable i old hh hb hc =
    let a = to_bytes 8 i.host_id in
    let b = to_bytes 4 i.block_index in
    let c = to_bytes 8 i.channel_id in
    let p = length-to_bytes 8 i.host_id in
    let q = length-to_bytes 4 i.block_index in
    let r = length-to_bytes 8 i.channel_id in
    let h1 = ap of_bytes (take-append 8 a (b ++ c) p) ∙ of_bytes-to_bytes 8 i.host_id hh in
    let h2 = ap of_bytes (take_second 8 4 8 a b c p q r) ∙ of_bytes-to_bytes 4 i.block_index hb in
    let h3 = ap of_bytes (take_third 8 4 8 a b c p q r) ∙ of_bytes-to_bytes 8 i.channel_id hc in
    λ t. (true, record { host_id = h1 t; block_index = h2 t; channel_id = h3 t })

module _ (i old : MessageInfo) (hs : length i.sender_id ≡ 8) (hq : i.seq_num < 2 ^ 64)
    (hp : length i.spare_id ≡ 8) where
  -- The message information is read back, but for the channel id, which is not written and which the
  -- object keeps.
  pub deserialize_message-serialize_message :
      deserialize_message (serialize_message i) old
      ≡ (true, record i { channel_id = old.channel_id })
  unfolding serialize_message deserialize_message
  deserialize_message-serialize_message =
      let b = to_bytes 8 i.seq_num in
      let q = length-to_bytes 8 i.seq_num in
      let h1 = take-append 8 i.sender_id (b ++ i.spare_id) hs in
      let h2 =
        ap of_bytes (take_second 8 8 8 i.sender_id b i.spare_id hs q hp)
        ∙ of_bytes-to_bytes 8 i.seq_num hq in
      let h3 = take_third 8 8 8 i.sender_id b i.spare_id hs q hp in
      rw (length_three 8 8 8 i.sender_id b i.spare_id hs q hp)
        (λ t. (true, record old { sender_id = h1 t; seq_num = h2 t; spare_id = h3 t }))

  -- Written into a buffer with room for it, the information is read back from the front into any
  -- object, except for the channel id, which is not written: the object keeps its own. The rest of
  -- the buffer is as before.
  pub deserialize_message-serialize_into :
      (dst : List ℕ)
      → 24 ≤ length dst
      → (out : List ℕ) × (serialize_into i dst ≡ some out)
        × (length out ≡ length dst)
        × (drop 24 out ≡ drop 24 dst)
        × (deserialize_message (take 24 out) old ≡ (true, record i { channel_id = old.channel_id }))
  unfolding serialize_into serialize_message
  deserialize_message-serialize_into dst h =
      let s = serialize_message i in
      let l : length s ≡ 24 =
        length_three 8 8 8 i.sender_id (to_bytes 8 i.seq_num) i.spare_id hs
          (length-to_bytes 8 i.seq_num) hp in
      (
        s ++ drop 24 dst,
        ground (arith, h),
        omega (arith, l, length-append s (drop 24 dst), length-drop 24 dst),
        drop-append 24 s (drop 24 dst) l,
        ap (λ x. deserialize_message x old) (take-append 24 s (drop 24 dst) l)
            ∙ deserialize_message-serialize_message,
      )
