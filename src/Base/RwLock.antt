-- ===== src/Base/RwLock.antt =====
-- cyber/base/atomic_rw_lock.h: a lock that is -1 for a writer and n for n readers, and a count of the
-- writers that wait, which readers leave first if `write_first`. Threads run as interleaved steps, one for
-- each atomic operation; a compare-exchange may fail for no reason. A guard gives back what it took.
pub mod Exclusion
mod Tests
use cyber_rt_standalone_r.Prelude.{
  ℕ, ◌+◌, ◌-◌, ◌^◌, ◌%◌, List, [], ◌∷◌, Bool, true, false, Option, some, none, ◌&&◌, ◌||◌, not, ltb,
  if◌then◌else◌, get_elem?, set, ℤ, pos, negsuc, is_neg, eqb_ℤ, succ_i32, pred_i32,
}

-- Where a thread stands. A reader has loaded the lock, is about to load it again, or has passed the tests; a
-- writer waits, or has taken the lock and still counts as waiting.
pub data Phase : Type 0 where
  idle : Phase
  loaded : ℤ → Phase
  retrying : Phase
  tested : ℤ → Phase
  waiting : Phase
  taken : Phase
  reading : Phase
  writing : Phase

-- What a thread does next; the flag says that a compare-exchange fails spuriously.
pub data Action : Type 0 where
  begin_read : Action
  begin_write : Action
  proceed : Bool → Action
  unlock : Action

-- The two atomics; each counter of the second wraps at 2^32.
pub record Words : Type 0 where
  pub lock_num : ℤ
  pub write_lock_wait_num : ℕ

module _ (write_first : Bool) where
  -- A step of one thread. An action that the phase does not allow changes nothing.
  pub act : Action → Phase → Words → Phase × Words
  act begin_read idle w = (loaded w.lock_num, w)
  act (proceed spurious) (loaded l) w =
      (if is_neg l || (write_first && ltb 0 w.write_lock_wait_num) then retrying else tested l, w)
  act (proceed spurious) retrying w = (loaded w.lock_num, w)
  act (proceed spurious) (tested l) w =
      if not spurious && eqb_ℤ w.lock_num l
      then (reading, record w { lock_num = succ_i32 l })
      else (loaded w.lock_num, w)
  act begin_write idle w =
      (waiting, record w { write_lock_wait_num = (w.write_lock_wait_num + 1) % 2 ^ 32 })
  act (proceed spurious) waiting w =
      if not spurious && eqb_ℤ w.lock_num (pos 0)
      then (taken, record w { lock_num = negsuc 0 })
      else (waiting, w)
  act (proceed spurious) taken w =
      (writing, record w { write_lock_wait_num = (w.write_lock_wait_num + (2 ^ 32 - 1)) % 2 ^ 32 })
  act unlock reading w = (idle, record w { lock_num = pred_i32 w.lock_num })
  act unlock writing w = (idle, record w { lock_num = succ_i32 w.lock_num })
  act _ p w = (p, w)

pub record System : Type 0 where
  pub words : Words
  pub threads : List Phase

module _ (write_first : Bool) where
  abbrev pub step_at : System → ℕ → Action → Option Phase → System
  step_at s i a none = s
  step_at s i a (some p) =
      let (p', w) = act write_first a p s.words in
      record { words = w; threads = set s.threads i p' }

  -- Thread `i` takes the step `a`.
  pub step : System → ℕ × Action → System
  unfolding act
  step s (i, a) = step_at s i a (get_elem? s.threads i)

  pub run : System → List (ℕ × Action) → System
  unfolding step
  run s [] = s
  run s (x ∷ xs) = run (step s x) xs
