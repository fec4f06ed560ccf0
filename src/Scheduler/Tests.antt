-- ===== src/Scheduler/Tests.antt =====
-- Runs of a routine on small schedules, and the theorems at them.
use cyber_rt_standalone_r.Prelude.{
  ℕ, Bool, set, replicate, some, ◌+◌, ◌≡◌, ◌≢◌, refl, ap, List, [], ◌∷◌, ◌++◌, true, false, arith,
}
use cyber_rt_standalone_r.Scheduler.Routine.{
  RoutineState, ready, sleep, data_wait, created, out, resuming, Event, acquire, send, remove, go,
  move, step, run, started,
}
use cyber_rt_standalone_r.Scheduler.Classic.{Entry, update_state, scan, scan_below, next_routine}
use cyber_rt_standalone_r.Scheduler.Classic.Choice.{
  highest, locked_all, count, next_routine-highest,
}
use cyber_rt_standalone_r.Scheduler.Routine.Steps.{holds}
use cyber_rt_standalone_r.Scheduler.Routine.Exclusion.{runs, run_exclusive}
use cyber_rt_standalone_r.Scheduler.Routine.Wakeup.{is_empty}
use cyber_rt_standalone_r.Scheduler.Routine.Turn.{Owed, turn, IsQuiet, run_fetches}

-- Processor 0 finds no message, and thread 1 sends one before the routine is released.
abbrev late_send : List (ℕ × Event ℕ)
late_send =
    (0, acquire)
    ∷ (0, go false)
    ∷ (0, go false)
    ∷ (0, go false)
    ∷ (0, go false)
    ∷ (0, go false)
    ∷ (0, go false)
    ∷ (1, send 7)
    ∷ (1, go false)
    ∷ (0, go false)
    ∷ (1, go false)
    ∷ []

late_send-IsQuiet : IsQuiet (run (started 2) late_send)
unfolding run step move
late_send-IsQuiet = record {
  rest = λ j. ground arith;
  unstopped = refl;
  between = refl;
  found = refl;
}

late_send_left : (run (started 2) late_send).routine.inbox ≡ 7 ∷ []
unfolding run step move
late_send_left = refl

late_send_some : (run (started 2) late_send).routine.fetched ≡ []
unfolding run step move
late_send_some = refl

run_fetches_example :
    let s = run (started 2) late_send in
    let s' = run s (turn 2) in
    (x : ℕ) × (Owed s.routine.queue_size s.routine.fetched s.routine.inbox x s'.routine.inbox
      × (s'.routine.fetched ≡ s.routine.fetched ++ x ∷ [])
      × (s'.stage_of 2 ≡ out))
run_fetches_example = run_fetches 2 late_send 2 late_send-IsQuiet (ap is_empty late_send_left)

-- Thread 1 removes the routine while processor 0 runs it, and processor 2 looks at it.
abbrev removal : List (ℕ × Event ℕ)
removal =
    (0, acquire)
    ∷ (0, go false)
    ∷ (0, go false)
    ∷ (1, remove)
    ∷ (1, go false)
    ∷ (2, acquire)
    ∷ (0, go false)
    ∷ (0, go false)
    ∷ (0, go false)
    ∷ (1, go false)
    ∷ (1, go false)
    ∷ []

run_exclusive_example :
    let s = run (started 2) removal in
    ((i j : ℕ) → i ≢ j → holds (s.stage_of i) ≡ true → holds (s.stage_of j) ≡ false)
    × ((i : ℕ) → s.stage_of i ≡ resuming → s.routine.state ≡ ready)
    × (s.routine.queued ≡ false → (i : ℕ) → runs (s.stage_of i) ≡ false)
run_exclusive_example = run_exclusive 2 removal

abbrev task : ℕ → RoutineState → Bool → Bool → Entry ℕ
task id state locked updated = record {
  id = id;
  wake_time = 50;
  routine = record (created 2) { state = state; locked = locked; updated = updated };
}

-- At priority 9 one routine is held and one waits without a notification; at 5 one sleeps until 50,
-- and one that was notified stands before one that is ready.
abbrev tasks : List (List (Entry ℕ))
tasks =
    set
      (set (replicate 20 []) 5
        (task 3 sleep false true ∷ task 4 data_wait false false ∷ task 5 ready false true ∷ []))
      9 (task 1 ready true true ∷ task 2 data_wait false true ∷ [])

next_at_40 : (next_routine false 40 tasks).0 ≡ some 4
unfolding next_routine scan_below scan update_state
next_at_40 = refl

next_at_60 : (next_routine false 60 tasks).0 ≡ some 3
unfolding next_routine scan_below scan update_state
next_at_60 = refl

next_routine-highest_example :
    let (o, rq') = next_routine false 40 tasks in
    (o ≡ highest 20 40 tasks) × (locked_all rq' ≡ count o + locked_all tasks)
next_routine-highest_example = next_routine-highest false 40 tasks refl
