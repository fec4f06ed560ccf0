-- ===== src/Data/Buffer.antt =====
-- cyber/data/cache_buffer.h: `CacheBuffer<T>`, a ring of the newest messages of a channel.
-- Positions are the `uint64_t` counters of the code. The buffer's mutex makes each call one step.
pub mod History
use cyber_rt_standalone_r.Prelude.{
  ℕ, ◌+◌, ◌-◌, ◌%◌, ◌∷◌, [], List, Bool, Option, some, none, ◌==◌, if◌then◌else◌, add_u64, sub_u64,
  get_or, set, replicate,
}

-- `W` is the state that a fusion callback reaches through what it captures.
pub record CacheBuffer {ℓ κ} (W : Type κ) (T : Type ℓ) : Type (ℓ ⊔ κ) where
  pub head : ℕ
  pub tail : ℕ
  pub capacity : ℕ
  pub buffer : List T
  pub fusion_callback : Option (T → W → W)

module _ {ℓ κ} {W : Type κ} {T : Type ℓ} where
  -- The constructor; `buffer_.resize` fills the slots with `default`.
  pub init : T → ℕ → CacheBuffer W T
  init default size = record {
    head = 0;
    tail = 0;
    capacity = add_u64 size 1;
    buffer = replicate (add_u64 size 1) default;
    fusion_callback = none;
  }

  abbrev pub get_index : CacheBuffer W T → ℕ → ℕ
  get_index b pos = pos % b.capacity

  -- `at` and `operator[]`. `default` stands for an access outside the vector.
  abbrev pub at : T → CacheBuffer W T → ℕ → T
  at default b pos = get_or b.buffer (get_index b pos) default

  abbrev pub head_pos : CacheBuffer W T → ℕ
  head_pos b = add_u64 b.head 1

  abbrev pub size : CacheBuffer W T → ℕ
  size b = sub_u64 b.tail b.head

  abbrev pub front : T → CacheBuffer W T → T
  front default b = at default b (add_u64 b.head 1)

  abbrev pub back : T → CacheBuffer W T → T
  back default b = at default b b.tail

  abbrev pub is_empty : CacheBuffer W T → Bool
  is_empty b = b.tail == 0

  abbrev pub full : CacheBuffer W T → Bool
  full b = sub_u64 b.capacity 1 == sub_u64 b.tail b.head

  pub set_fusion_callback : CacheBuffer W T → (T → W → W) → CacheBuffer W T
  set_fusion_callback b callback = record b { fusion_callback = some callback }

  -- The branch of `Fill` without a callback.
  pub store : CacheBuffer W T → T → CacheBuffer W T
  store b value =
      if full b
      then record b {
        buffer = set b.buffer (get_index b b.head) value;
        head = add_u64 b.head 1;
        tail = add_u64 b.tail 1;
      }
      else record b {
        buffer = set b.buffer (get_index b (add_u64 b.tail 1)) value;
        tail = add_u64 b.tail 1;
      }

  pub fill : CacheBuffer W T → T → W → CacheBuffer W T × W
  unfolding store
  fill b value w = elim b.fusion_callback [
    | some callback ↦ (b, callback value w)
    | none ↦ (store b value, w)
  ]
