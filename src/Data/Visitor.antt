-- ===== src/Data/Visitor.antt =====
-- cyber/data/data_visitor.h: `DataVisitor<M0>`, the reading side of a component with one channel.
pub mod Delivery
use cyber_rt_standalone_r.Prelude.{ℕ, zero, suc, ◌+◌, List, [], ◌∷◌, Option, some, none, add_u64}
use cyber_rt_standalone_r.Data.Buffer.{CacheBuffer, init, fill}
use cyber_rt_standalone_r.Data.Channel.{fetch}

pub record Visitor (T : Type 0) : Type 0 where
  pub buffer : CacheBuffer (Unit {0}) T
  pub next_msg_index : ℕ

-- A dispatcher fills the buffer with a message, or the component polls.
pub data Event (T : Type 0) : Type 0 where
  arrive : T → Event T
  poll : Event T

pub arrival : {T : Type 0} → Visitor T → T → Visitor T
arrival v m = record v { buffer = (fill v.buffer m tt).0 }

module _ {T : Type 0} (default : T) where
  unfoldable pub create : ℕ → Visitor T
  create queue_size = record { buffer = init default queue_size; next_msg_index = 0 }

  -- Beside the message stands the position that it was read at.
  abbrev pub settle : Visitor T → Option T × ℕ → Option (ℕ × T) × Visitor T
  settle v (some t, index) = (some (index, t), record v { next_msg_index = add_u64 index 1 })
  settle v (none, index) = (none, record v { next_msg_index = index })

  pub try_fetch : Visitor T → Option (ℕ × T) × Visitor T
  try_fetch v = settle v (fetch default v.buffer v.next_msg_index)

  abbrev pub delivered : Option (ℕ × T) → List (ℕ × T) → List (ℕ × T)
  delivered none rest = rest
  delivered (some d) rest = d ∷ rest

  -- What the polls of a schedule deliver.
  unfoldable pub run : Visitor T → List (Event T) → List (ℕ × T)
  run v [] = []
  run v (arrive m ∷ es) = run (arrival v m) es
  run v (poll ∷ es) = let (out, v') = try_fetch v in delivered out (run v' es)

  abbrev pub drained :
      (Visitor T → List T × Visitor T) → Option (ℕ × T) × Visitor T → List T × Visitor T
  drained again (none, v) = ([], v)
  drained again (some (p, m), v) = (m ∷ (again v).0, (again v).1)

  -- `while (TryFetch(m))`, at most `fuel` rounds: the messages and the visitor that is left.
  pub drain : ℕ → Visitor T → List T × Visitor T
  drain zero v = ([], v)
  drain (suc fuel) v = drained (drain fuel) (try_fetch v)
