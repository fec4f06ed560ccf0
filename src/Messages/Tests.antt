-- ===== src/Messages/Tests.antt =====
-- Runs of the printers and parsers on small inputs, and the theorems at them.
use cyber_rt_standalone_r.Prelude.{
  ℕ, ◌≡◌, refl, List, [], ◌∷◌, true, false, some, length, take, drop, replicate, arith, ◌^◌,
}
use cyber_rt_standalone_r.Messages.{
  ReadableInfo, serialize_readable, deserialize_readable, MessageInfo, serialize_into,
  deserialize_message,
}
use cyber_rt_standalone_r.Messages.RoundTrip.{
  deserialize_readable-serialize_readable, deserialize_message-serialize_into,
}

abbrev readable : ReadableInfo
readable = record { host_id = 258; block_index = 3; channel_id = 2 ^ 63 }

abbrev blank : ReadableInfo
blank = record { host_id = 0; block_index = 0; channel_id = 0 }

-- A string of the wrong size is refused.
too_short : deserialize_readable (1 ∷ 2 ∷ []) readable ≡ (false, readable)
unfolding deserialize_readable
too_short = refl

deserialize_readable-serialize_readable_example :
    deserialize_readable (serialize_readable readable) blank ≡ (true, readable)
deserialize_readable-serialize_readable_example =
    deserialize_readable-serialize_readable readable blank (omega arith) (omega arith) (omega arith)

abbrev info : ℕ → MessageInfo
info channel = record {
  sender_id = 1 ∷ 2 ∷ 3 ∷ 4 ∷ 5 ∷ 6 ∷ 7 ∷ 8 ∷ [];
  channel_id = channel;
  seq_num = 70000;
  spare_id = 0 ∷ 0 ∷ 0 ∷ 0 ∷ 0 ∷ 0 ∷ 0 ∷ 9 ∷ [];
}

deserialize_message-serialize_into_example :
    (out : List ℕ) × (serialize_into (info 5) (replicate 30 7) ≡ some out)
    × (length out ≡ 30)
    × (drop 24 out ≡ replicate 6 7)
    × (deserialize_message (take 24 out) (info 6) ≡ (true, info 6))
deserialize_message-serialize_into_example =
    deserialize_message-serialize_into (info 5) (info 6) refl (omega arith) refl (replicate 30 7)
      (omega arith)
