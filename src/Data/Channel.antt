-- ===== src/Data/Channel.antt =====
-- cyber/data/channel_buffer.h: how a reader takes messages out of a channel's buffer. Every method
-- holds the buffer's mutex. An output parameter that a call leaves alone is `none`.
pub mod Reads
use cyber_rt_standalone_r.Prelude.{
  ℕ, zero, suc, ◌+◌, List, [], ◌∷◌, Option, some, none, ◌==◌, ltb, leb, if◌then◌else◌, add_u64,
  sub_u64, min,
}
use cyber_rt_standalone_r.Data.Buffer.{CacheBuffer, at, head_pos, size, back, is_empty}

module _ {ℓ κ} {W : Type κ} {T : Type ℓ} (default : T) where
  -- The index that `Fetch` reads, when it reads: `*index` is moved to the newest message on the
  -- first fetch and after an overflow.
  abbrev pub fetch_index : CacheBuffer W T → ℕ → Option ℕ
  fetch_index b index =
      if index == 0
      then some b.tail
      else if index == add_u64 b.tail 1
      then none
      else if ltb index (head_pos b)
      then some b.tail
      else some index

  -- The message, and the new `*index`.
  pub fetch : CacheBuffer W T → ℕ → Option T × ℕ
  fetch b index =
      if is_empty b
      then (none, index)
      else elim (fetch_index b index) [ none ↦ (none, index) | some i ↦ (some (at default b i), i) ]

  pub latest : CacheBuffer W T → Option T
  latest b = if is_empty b then none else some (back default b)

  -- `for (; index <= Tail(); ++index)`, at most `fuel` rounds.
  collect : ℕ → CacheBuffer W T → ℕ → List T
  collect zero b index = []
  collect (suc fuel) b index =
      let rest = collect fuel b (add_u64 index 1) in
      if leb index b.tail then at default b index ∷ rest else []

  pub fetch_multi : CacheBuffer W T → ℕ → Option (List T)
  unfolding collect
  fetch_multi b fetch_size =
      let num = min (size b) fetch_size in
      if is_empty b then none else some (collect (suc num) b (add_u64 (sub_u64 b.tail num) 1))
