-- ===== src/Base/Bounded.antt =====
-- cyber/base/bounded_queue.h: a ring that any number of threads fill and empty without a lock. A thread
-- takes one step for each access to what is shared; accesses come in one order, as with sequentially
-- consistent atomics. The waiting calls repeat `Enqueue` and `Dequeue` and are left out.
pub mod Invariant
pub mod Steps
pub mod Changes
pub mod Order
pub mod Alone
pub mod Fifo
use cyber_rt_standalone_r.Prelude.{
  ℕ, ◌+◌, ◌-◌, ◌*◌, ◌/◌, List, [], ◌∷◌, ◌++◌, Bool, true, false, ◌&&◌, not, if◌then◌else◌, ◌==◌,
  Option, some, none, add_u64, update, get_or, set, replicate,
}

-- What threads share. `log` and `out` record what has happened: the elements whose places were
-- claimed and those that were handed out, the oldest first.
pub record Shared (T : Type 0) : Type 0 where
  pub head : ℕ
  pub tail : ℕ
  pub commit : ℕ
  pub pool_size : ℕ
  pub pool : List T
  pub log : List T
  pub out : List T

-- Where a thread stands in `Enqueue` or `Dequeue`, with its local variables.
pub data Phase (T : Type 0) : Type 0 where
  idle : Phase T
  -- Before the load of `head_`, the exchange of `tail_`, the store, the exchange of `commit_`.
  tail_loaded : (old_tail : ℕ) → T → Phase T
  tail_checked : (old_tail : ℕ) → T → Phase T
  claimed : (old_tail : ℕ) → T → Phase T
  stored : (old_tail : ℕ) → Phase T
  -- Before the load of `commit_`, the copy of the element, the exchange of `head_`.
  head_loaded : (old_head : ℕ) → Phase T
  head_checked : (old_head : ℕ) → Phase T
  copied : (old_head : ℕ) → T → Phase T

-- The calls begin with a load; the flag says that a compare-exchange fails spuriously.
pub data Action (T : Type 0) : Type 0 where
  enqueue : T → Action T
  dequeue : Action T
  go : Bool → Action T

-- `GetIndex`.
unfoldable pub get_index : ℕ → ℕ → ℕ
get_index pool_size num = num - num / pool_size * pool_size

module _ {T : Type 0} (default : T) where
  -- The queue after `Init(size)`, a head and a tail occupying a place each.
  unfoldable pub init : ℕ → Shared T
  init size = record {
    head = 0;
    tail = 1;
    commit = 1;
    pool_size = add_u64 size 2;
    pool = replicate (add_u64 size 2) default;
    log = [];
    out = [];
  }

  -- `Init`: none where it returns false, by whether `calloc` gives the pool.
  pub try_init : Bool → ℕ → Option (Shared T)
  try_init allocated size = if allocated then some (init size) else none

  -- One step of a thread.
  unfoldable pub move : Action T → Phase T → Shared T → Phase T × Shared T
  unfolding get_index
  move (enqueue x) idle m = (tail_loaded m.tail x, m)
  move dequeue idle m = (head_loaded m.head, m)
  move (go spurious) (tail_loaded t x) m =
      if get_index m.pool_size (add_u64 t 1) == get_index m.pool_size m.head
      then (idle, m)
      else (tail_checked t x, m)
  move (go spurious) (tail_checked t x) m =
      if not spurious && m.tail == t
      then (claimed t x, record m { tail = add_u64 t 1; log = m.log ++ x ∷ [] })
      else (tail_loaded m.tail x, m)
  move (go spurious) (claimed t x) m =
      (stored t, record m { pool = set m.pool (get_index m.pool_size t) x })
  move (go spurious) (stored t) m =
      if not spurious && m.commit == t
      then (idle, record m { commit = add_u64 t 1 })
      else (stored t, m)
  move (go spurious) (head_loaded h) m =
      if add_u64 h 1 == m.commit then (idle, m) else (head_checked h, m)
  move (go spurious) (head_checked h) m =
      (copied h (get_or m.pool (get_index m.pool_size (add_u64 h 1)) default), m)
  move (go spurious) (copied h v) m =
      if not spurious && m.head == h
      then (idle, record m { head = add_u64 h 1; out = m.out ++ v ∷ [] })
      else (head_loaded m.head, m)
  move _ p m = (p, m)

pub record System (T : Type 0) : Type 0 where
  pub shared : Shared T
  pub phase_of : ℕ → Phase T

abbrev pub moved : {T : Type 0} → System T → ℕ → Phase T × Shared T → System T
moved s i (p, m) = record { shared = m; phase_of = update s.phase_of i p }

module _ {T : Type 0} (default : T) where
  -- Thread `i` takes the step `a`.
  unfoldable pub step : System T → ℕ × Action T → System T
  unfolding move
  step s (i, a) = moved s i (move default a (s.phase_of i) s.shared)

  unfoldable pub run : System T → List (ℕ × Action T) → System T
  unfolding step
  run s [] = s
  run s (x ∷ xs) = run (step s x) xs

  -- A new queue before threads that do nothing.
  unfoldable pub fresh : ℕ → System T
  unfolding init
  fresh size = record { shared = init default size; phase_of = λ i. idle }
