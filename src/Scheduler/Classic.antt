-- ===== src/Scheduler/Classic.antt =====
-- cyber/scheduler/policy/classic_context.cc: the choice of the next routine among those of a group. The
-- call is one step here; Routine has its steps and the other threads.
pub mod Choice
use cyber_rt_standalone_r.Prelude.{
  ℕ, zero, suc, List, [], ◌∷◌, Bool, true, false, ◌&&◌, Option, some, none, ltb, get_or, set,
}
use cyber_rt_standalone_r.Scheduler.Routine.{Routine, ready, sleeps, waits, is_ready, wake}

-- A routine in a run queue.
pub record Entry (T : Type 0) : Type 0 where
  pub id : ℕ
  pub wake_time : ℕ
  pub routine : Routine T

-- `MAX_PRIO`.
abbrev pub max_prio : ℕ
max_prio = 20

module _ {T : Type 0} where
  -- `UpdateState`, by whether the routine has slept enough and by its flag.
  abbrev pub flag_state : Bool → Routine T → Routine T
  flag_state true r = r
  flag_state false r = (wake (waits r.state) (record r { updated = true })).1

  abbrev pub time_state : Bool → Routine T → Routine T
  time_state true r = record r { state = ready }
  time_state false r = flag_state r.updated r

  unfoldable pub update_state : ℕ → Entry T → Routine T
  update_state now e = time_state (sleeps e.routine.state && ltb e.wake_time now) e.routine

  -- What the loop makes of an entry, by whether it is locked and by its state; the flag says that it
  -- is returned.
  abbrev pub settle_entry : Bool → Entry T → Routine T → Bool × Entry T
  settle_entry true e r = (true, record e { routine = record r { locked = true } })
  settle_entry false e r = (false, record e { routine = record r { locked = false } })

  abbrev pub try_locked : Bool → ℕ → Entry T → Bool × Entry T
  try_locked true now e = (false, e)
  try_locked false now e = let r = update_state now e in settle_entry (is_ready r.state) e r

  abbrev pub try_entry : ℕ → Entry T → Bool × Entry T
  try_entry now e = try_locked e.routine.locked now e

  -- The loop over one queue.
  abbrev pub collected :
      Bool × Entry T → List (Entry T) → Option ℕ × List (Entry T) → Option ℕ × List (Entry T)
  collected (true, e) es rest = (some e.id, e ∷ es)
  collected (false, e) es (o, es') = (o, e ∷ es')

  unfoldable pub scan : ℕ → List (Entry T) → Option ℕ × List (Entry T)
  scan now [] = (none, [])
  scan now (e ∷ es) = collected (try_entry now e) es (scan now es)

  -- The loop over the priorities below `i`.
  abbrev pub lower :
      Option ℕ
      → List (List (Entry T))
      → Option ℕ × List (List (Entry T))
      → Option ℕ × List (List (Entry T))
  lower (some id) rq rest = (some id, rq)
  lower none rq rest = rest

  unfoldable pub scan_below : ℕ → ℕ → List (List (Entry T)) → Option ℕ × List (List (Entry T))
  unfolding scan
  scan_below zero now rq = (none, rq)
  scan_below (suc i) now rq =
      let (o, q) = scan now (get_or rq i []) in
      let rq' = set rq i q in lower o rq' (scan_below i now rq')

  -- By whether the context is stopped.
  unfoldable pub next_routine : Bool → ℕ → List (List (Entry T)) → Option ℕ × List (List (Entry T))
  unfolding scan_below
  next_routine true now rq = (none, rq)
  next_routine false now rq = scan_below max_prio now rq
