-- ===== src/Scheduler/Routine.antt =====
-- cyber/croutine/croutine.h and croutine.cc, with the loop of cyber/croutine/routine_factory.h that a
-- component's routine runs, the loop of cyber/scheduler/processor.cc around NextRoutine for one
-- routine, and the calls of cyber/scheduler/policy/scheduler_classic.cc that wake and remove it.
-- A thread takes one step for each access to what threads share.
pub mod Steps
pub mod Exclusion
pub mod Covered
pub mod Wakeup
pub mod Free
pub mod Turn
use cyber_rt_standalone_r.Prelude.{
  ℕ, List, [], ◌∷◌, ◌++◌, Bool, true, false, ◌&&◌, ◌||◌, not, if◌then◌else◌, ltb, length, update,
}

pub data RoutineState : Type 0 where
  ready : RoutineState
  finished : RoutineState
  sleep : RoutineState
  io_wait : RoutineState
  data_wait : RoutineState

-- Whether a notification or a change of the wake time ends the state.
abbrev pub waits : RoutineState → Bool
waits io_wait = true
waits data_wait = true
waits _ = false

abbrev pub sleeps : RoutineState → Bool
sleeps sleep = true
sleeps _ = false

abbrev pub is_ready : RoutineState → Bool
is_ready ready = true
is_ready _ = false

-- A routine; `inside` says that it is suspended in the callback, which it goes on with when it is
-- resumed. `queued` says that the processors find it in their run queue, `inbox` is what has come to its
-- data visitor since the last message that it fetched, the oldest first, and `queue_size` the size of the
-- visitor's buffer; `fetched` records what the callback was given.
pub record Routine (T : Type 0) : Type 0 where
  pub state : RoutineState
  pub locked : Bool
  pub updated : Bool
  pub force_stop : Bool
  pub inside : Bool
  pub queued : Bool
  pub queue_size : ℕ
  pub inbox : List T
  pub fetched : List T

-- Where a thread stands.
pub data Stage (T : Type 0) : Type 0 where
  out : Stage T
  -- A processor in NextRoutine: at the test of the wake time, at `updated_`, at the state that the
  -- flag announced, at the test of the result.
  acquired : Stage T
  flagging : Stage T
  waking : Stage T
  tested : Stage T
  -- A processor in Resume and in the routine: before `set_state(DATA_WAIT)`, before `TryFetch`, in
  -- the callback.
  resuming : Stage T
  running : Stage T
  fetching : Stage T
  handling : Stage T
  -- A processor before Release.
  releasing : Stage T
  -- A sender in NotifyProcessor: at the test of the state, at SetUpdateFlag.
  notifying : Stage T
  clearing : Stage T
  -- A thread in RemoveCRoutine: before Acquire, before the routine leaves the queue.
  stopping : Stage T
  erasing : Stage T

-- A processor tries the routine, a sender has put a message where the visitor fetches it, a thread
-- removes the routine. `go` is the next step of a thread that is not out; its flag says that the
-- wake time has passed. The callback may `suspend` the routine in some state.
pub data Event (T : Type 0) : Type 0 where
  acquire : Event T
  send : T → Event T
  remove : Event T
  go : Bool → Event T
  suspend : RoutineState → Event T

abbrev pub is_nil : {A : Type 0} → List A → Bool
is_nil [] = true
is_nil (x ∷ xs) = false

module _ {T : Type 0} where
  -- A routine at its construction, when it has been enqueued.
  abbrev pub created : ℕ → Routine T
  created queue_size = record {
    state = ready;
    locked = false;
    updated = true;
    force_stop = false;
    inside = false;
    queued = true;
    queue_size = queue_size;
    inbox = [];
    fetched = [];
  }

  -- `Fetch` of a buffer with something new: the first time, and when the oldest has been overwritten, it is
  -- the newest, else the oldest.
  abbrev pub newest : T → List T → T
  newest x [] = x
  newest x (y ∷ ys) = newest y ys

  abbrev pub jumps : Routine T → List T → Bool
  jumps r box = is_nil r.fetched || ltb r.queue_size (length box)

  abbrev pub fetch_from : Bool → T → List T → T × List T
  fetch_from true x xs = (newest x xs, [])
  fetch_from false x xs = (x, xs)

  abbrev pub given : T × List T → Routine T → Stage T × Routine T
  given (x, xs) r =
      (handling, record r { inbox = xs; inside = true; fetched = r.fetched ++ x ∷ [] })

  -- `TryFetch`, and the callback's first step or `Yield`.
  abbrev pub try_fetch : List T → Routine T → Stage T × Routine T
  try_fetch [] r = (releasing, r)
  try_fetch (x ∷ xs) r = given (fetch_from (jumps r (x ∷ xs)) x xs) r

  -- `UpdateState`, in three steps.
  abbrev pub check_time : Bool → Routine T → Stage T × Routine T
  check_time true r = (tested, record r { state = ready })
  check_time false r = (flagging, r)

  abbrev pub take_flag : Bool → Routine T → Stage T × Routine T
  take_flag true r = (tested, r)
  take_flag false r = (waking, record r { updated = true })

  abbrev pub wake : Bool → Routine T → Stage T × Routine T
  wake true r = (tested, record r { state = ready })
  wake false r = (tested, r)

  -- `Resume`, by whether it is forced to stop, whether the state is READY, and where it goes on.
  abbrev pub resume : Bool → Bool → Bool → Routine T → Stage T × Routine T
  resume true is_ready inside r = (releasing, record r { state = finished })
  resume false false inside r = (releasing, r)
  resume false true true r = (handling, r)
  resume false true false r = (running, r)

  -- `Acquire`, by whether the processor finds the routine and whether it is locked.
  abbrev pub try_acquire : Bool → Bool → Stage T → Stage T → Routine T → Stage T × Routine T
  try_acquire true false yes_stage no_stage r = (yes_stage, record r { locked = true })
  try_acquire _ _ yes_stage no_stage r = (no_stage, r)

  -- What NextRoutine does with a routine, by whether `UpdateState` says READY.
  abbrev pub chosen : Bool → Stage T
  chosen is_ready = if is_ready then resuming else releasing

  -- What NotifyProcessor does with a routine, by whether it waits.
  abbrev pub notified : Bool → Stage T
  notified waiting = if waiting then clearing else out

  abbrev pub set_update_flag : Routine T → Routine T
  set_update_flag r = record r { updated = false }

  abbrev pub stop : Routine T → Routine T
  stop r = record r { force_stop = true }

  abbrev pub release : Routine T → Routine T
  release r = record r { locked = false }

  -- `Yield` at the end of the callback, and in it.
  abbrev pub yield_ready : Routine T → Routine T
  yield_ready r = record r { state = ready; inside = false }

  abbrev pub yield_inside : RoutineState → Routine T → Routine T
  yield_inside s r = record r { state = s; inside = true }

  -- The routine leaves the run queue.
  abbrev pub erase_routine : Routine T → Routine T
  erase_routine r = record r { queued = false }

  -- One step of a thread.
  unfoldable pub move : Event T → Stage T → Routine T → Stage T × Routine T
  move acquire out r = try_acquire r.queued r.locked acquired out r
  move (send x) out r = (notifying, record r { inbox = r.inbox ++ x ∷ [] })
  move remove out r = (stopping, stop r)
  move (go late) acquired r = check_time (sleeps r.state && late) r
  move (go late) flagging r = take_flag r.updated r
  move (go late) waking r = wake (waits r.state) r
  move (go late) tested r = (chosen (is_ready r.state), r)
  move (go late) resuming r = resume r.force_stop (is_ready r.state) r.inside r
  move (go late) running r = (fetching, record r { state = data_wait })
  move (go late) fetching r = try_fetch r.inbox r
  move (go late) handling r = (releasing, yield_ready r)
  move (suspend s) handling r = (releasing, yield_inside s r)
  move (go late) releasing r = (out, release r)
  move (go late) notifying r = (notified (waits r.state), r)
  move (go late) clearing r = (out, set_update_flag r)
  move (go late) stopping r = try_acquire true r.locked erasing stopping r
  move (go late) erasing r = (releasing, erase_routine r)
  move _ p r = (p, r)

pub record Team (T : Type 0) : Type 0 where
  pub routine : Routine T
  pub stage_of : ℕ → Stage T

abbrev pub advanced : {T : Type 0} → Team T → ℕ → Stage T × Routine T → Team T
advanced s i (p, r) = record { routine = r; stage_of = update s.stage_of i p }

module _ {T : Type 0} where
  -- Thread `i` takes the step `a`.
  unfoldable pub step : Team T → ℕ × Event T → Team T
  unfolding move
  step s (i, a) = advanced s i (move a (s.stage_of i) s.routine)

  unfoldable pub run : Team T → List (ℕ × Event T) → Team T
  unfolding step
  run s [] = s
  run s (x ∷ xs) = run (step s x) xs

  abbrev pub started : ℕ → Team T
  started queue_size = record { routine = created queue_size; stage_of = λ i. out }
