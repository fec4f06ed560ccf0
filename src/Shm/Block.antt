-- ===== src/Shm/Block.antt =====
-- cyber/transport/shm/block.cc: the lock of a block, -1 for a writer and n for n readers. Threads run
-- as interleaved steps, one for each atomic operation. A compare-exchange may fail for no reason.
-- A thread takes a lock and gives back what it took, as `Segment` and its callers do.
pub mod Exclusion
use cyber_rt_standalone_r.Prelude.{
  ℕ, suc, ◌+◌, List, [], ◌∷◌, Bool, true, false, Option, some, none, ◌&&◌, not, ◌==◌, if◌then◌else◌,
  get_elem?, set, ℤ, pos, negsuc, is_neg, eqb_ℤ, succ_i32, pred_i32,
}

abbrev pub max_try_lock_times : ℕ
max_try_lock_times = 5

-- Where a thread stands. `seen l k` is `TryLockForRead` that has read `l` and failed `k` times.
pub data Phase : Type 0 where
  idle : Phase
  seen : ℤ → ℕ → Phase
  reading : Phase
  writing : Phase

-- What a thread does next; the flag says that a compare-exchange fails spuriously.
pub data Action : Type 0 where
  try_lock_for_read : Action
  exchange : Bool → Action
  try_lock_for_write : Bool → Action
  release_read_lock : Action
  release_write_lock : Action

-- `lock_num = lock_num_.load()` and the test after it; a negative count gives up.
abbrev pub load : ℤ → ℕ → Phase
load lock_num tries = if is_neg lock_num then idle else seen lock_num tries

-- A step of one thread: its next phase, and the lock. An action that the phase does not allow
-- changes nothing.
pub act : Action → Phase → ℤ → Phase × ℤ
act try_lock_for_read idle l = (load l 0, l)
act (exchange spurious) (seen expected tries) l =
    if not spurious && eqb_ℤ l expected
    then (reading, succ_i32 expected)
    else if (tries + 1) == max_try_lock_times
    then (idle, l)
    else (load l (tries + 1), l)
act (try_lock_for_write spurious) idle l =
    if not spurious && eqb_ℤ l (pos 0) then (writing, negsuc 0) else (idle, l)
act release_read_lock reading l = (idle, pred_i32 l)
act release_write_lock writing l = (idle, succ_i32 l)
act _ p l = (p, l)

pub record System : Type 0 where
  pub lock_num : ℤ
  pub threads : List Phase

abbrev pub step_at : System → ℕ → Action → Option Phase → System
step_at s i a none = s
step_at s i a (some p) =
    let (p', l) = act a p s.lock_num in record { lock_num = l; threads = set s.threads i p' }

-- Thread `i` takes the step `a`.
pub step : System → ℕ × Action → System
unfolding act
step s (i, a) = step_at s i a (get_elem? s.threads i)

pub run : System → List (ℕ × Action) → System
unfolding step
run s [] = s
run s (x ∷ xs) = run (step s x) xs
