-- ===== src/Timer/Wheel.antt =====
-- cyber/timer/timing_wheel.h, timing_wheel.cc, timer_bucket.h and timer_task.h: two wheels of
-- buckets, moved on by the tick thread. Buckets hold weak pointers, so a task is a key into a heap
-- where a task that is gone reads as `none`. `TickFunc` is cut into steps, one for `Tick`, for each of
-- the two indices and for `Cascade`; an `AddTask` is one step, which may stand between any two of them.
-- The sleep that paces the rounds is a phase without a length.
pub mod Buckets
pub mod Rounds
pub mod Moves
pub mod Waiting
pub mod Adding
pub mod Others
pub mod Phases
pub mod Firing
pub mod Silence
use cyber_rt_standalone_r.Prelude.{
  ℕ, ◌+◌, ◌*◌, ◌/◌, ◌%◌, List, [], ◌∷◌, ◌++◌, Bool, true, false, Option, some, none, ◌&&◌, ◌==◌,
  ltb, leb, if◌then◌else◌, add_u64, get_or, set, replicate,
}

abbrev pub work_wheel_size : ℕ
work_wheel_size = 512

abbrev pub assistant_wheel_size : ℕ
assistant_wheel_size = 64

abbrev pub timer_resolution_ms : ℕ
timer_resolution_ms = 2

abbrev pub timer_max_interval_ms : ℕ
timer_max_interval_ms = 512 * 64 * 2

-- `TimerTask` without its callback and mutex. The signed error is kept as its 64-bit pattern.
pub record TimerTask : Type 0 where
  pub timer_id : ℕ
  pub interval_ms : ℕ
  pub remainder_interval_ms : ℕ
  pub next_fire_duration_ms : ℕ
  pub accumulated_error_ns : ℕ
  pub last_execute_time_ns : ℕ

-- A bucket's `task_list`, oldest first.
abbrev pub TimerBucket : Type 0
TimerBucket = List ℕ

pub record TimingWheel : Type 0 where
  pub running : Bool
  pub tick_count : ℕ
  pub work_wheel : List TimerBucket
  pub assistant_wheel : List TimerBucket
  pub current_work_wheel_index : ℕ
  pub current_assistant_wheel_index : ℕ
  pub tasks : ℕ → Option TimerTask

pub init : TimingWheel
init = record {
  running = false;
  tick_count = 0;
  work_wheel = replicate work_wheel_size [];
  assistant_wheel = replicate assistant_wheel_size [];
  current_work_wheel_index = 0;
  current_assistant_wheel_index = 0;
  tasks = λ _. none;
}

-- `index & (WORK_WHEEL_SIZE - 1)`, the size being a power of two.
abbrev pub get_work_wheel_index : ℕ → ℕ
get_work_wheel_index index = index % work_wheel_size

abbrev pub get_assistant_wheel_index : ℕ → ℕ
get_assistant_wheel_index index = index % assistant_wheel_size

-- `TimerBucket::AddTask` on bucket `i` of a wheel.
abbrev pub push_back : List TimerBucket → ℕ → ℕ → List TimerBucket
push_back wheel i p = set wheel i (get_or wheel i [] ++ p ∷ [])

pub start : TimingWheel → TimingWheel
start w = record w { running = true }

pub shutdown : TimingWheel → TimingWheel
shutdown w = record w { running = false }

abbrev pub is_alive : TimingWheel → ℕ → Bool
is_alive w p = elim (w.tasks p) [ none ↦ false | some _ ↦ true ]

-- The tasks of a bucket whose weak pointers can be locked.
pub alive : TimingWheel → List ℕ → List ℕ
alive w [] = []
alive w (p ∷ ps) = if is_alive w p then p ∷ alive w ps else alive w ps

-- `Tick`: the callbacks that are handed to `Async`, in order; the bucket is emptied.
pub tick : TimingWheel → List ℕ × TimingWheel
unfolding alive
tick w =
    let bucket = get_or w.work_wheel w.current_work_wheel_index [] in
    (alive w bucket, record w { work_wheel = set w.work_wheel w.current_work_wheel_index [] })

abbrev pub update : (ℕ → Option TimerTask) → ℕ → TimerTask → ℕ → Option TimerTask
update tasks p t q = if q == p then some t else tasks q

-- The ticks until a task fires: `ceil(next_fire_duration_ms / 2)`, which `double` computes exactly
-- below 2^53.
abbrev pub ticks_of : ℕ → ℕ
ticks_of duration = (duration + 1) / timer_resolution_ms

-- The second half of `AddTask`, for an index past the end of the work wheel.
pub add_far : TimingWheel → ℕ → TimerTask → ℕ → TimingWheel
add_far w p task work_wheel_index =
    let real = get_work_wheel_index work_wheel_index in
    let assistant_ticks = work_wheel_index / work_wheel_size in
    let tasks' = update w.tasks p (record task { remainder_interval_ms = real }) in
    if assistant_ticks == 1 && ltb real w.current_work_wheel_index
    then record w { tasks = tasks'; work_wheel = push_back w.work_wheel real p }
    else record w {
      tasks = tasks';
      assistant_wheel =
          push_back w.assistant_wheel
            (get_assistant_wheel_index (add_u64 w.current_assistant_wheel_index assistant_ticks)) p;
    }

-- `AddTask(task, index)` on a wheel that runs.
pub add_started : TimingWheel → ℕ → TimerTask → TimingWheel
unfolding add_far
add_started w p task =
    let work_wheel_index =
      add_u64 w.current_work_wheel_index (ticks_of task.next_fire_duration_ms) in
    if leb work_wheel_size work_wheel_index
    then add_far w p task work_wheel_index
    else record w { work_wheel = push_back w.work_wheel work_wheel_index p }

-- `AddTask(task)`, where `p` points to `task`.
pub add_task : TimingWheel → ℕ → TimerTask → TimingWheel
unfolding add_started start
add_task w p task = add_started (if w.running then w else start w) p task

-- A round of the loop of `Cascade`, with what `lock` gave: a living task goes to the work wheel.
abbrev pub put_down : Option TimerTask → ℕ → List TimerBucket → List TimerBucket
put_down none p wheel = wheel
put_down (some t) p wheel = push_back wheel t.remainder_interval_ms p

pub move_down : (ℕ → Option TimerTask) → List ℕ → List TimerBucket → List TimerBucket
move_down tasks [] wheel = wheel
move_down tasks (p ∷ ps) wheel = move_down tasks ps (put_down (tasks p) p wheel)

pub cascade : TimingWheel → ℕ → TimingWheel
unfolding move_down
cascade w i = record w {
  work_wheel = move_down w.tasks (get_or w.assistant_wheel i []) w.work_wheel;
  assistant_wheel = set w.assistant_wheel i [];
}

-- Where the tick thread is in a round of `TickFunc`: before `Tick`, before it moves the one index or the
-- other, or before `Cascade`.
pub data Phase : Type 0 where
  ticking : Phase
  sleeping : Phase
  turning : Phase
  cascading : Phase

-- `Tick` with the count of ticks: what fires, and the wheel after it.
pub tick_step : TimingWheel → List ℕ × TimingWheel
unfolding tick
tick_step w =
    let (fired, w') = tick w in (fired, record w' { tick_count = add_u64 w'.tick_count 1 })

-- After the sleep: the index of the work wheel moves on, and the test whether it is 0 again.
abbrev pub after_work : ℕ → Phase
after_work next = if next == 0 then turning else ticking

pub turn_work : TimingWheel → Phase × TimingWheel
turn_work w =
    let next = get_work_wheel_index (add_u64 w.current_work_wheel_index 1) in
    (after_work next, record w { current_work_wheel_index = next })

pub turn_assistant : TimingWheel → TimingWheel
turn_assistant w = record w {
  current_assistant_wheel_index =
      get_assistant_wheel_index (add_u64 w.current_assistant_wheel_index 1);
}

-- `new TimerTask` at a pointer, and the release of its last owner.
abbrev pub place : TimingWheel → ℕ → TimerTask → TimingWheel
place w p t = record w { tasks = update w.tasks p t }

abbrev pub release : TimingWheel → ℕ → TimingWheel
release w p = record w { tasks = λ q. if q == p then none else w.tasks q }

-- What happens to the wheel: a step of the tick thread, a task that is made or changed and then
-- added, a task that is dropped.
pub data Event : Type 0 where
  steps : Event
  adds : ℕ → TimerTask → Event
  drops : ℕ → Event

-- What the ticks of a schedule hand to `Async`, tick by tick, with the tick thread at a phase.
pub run : Phase → TimingWheel → List Event → List (List ℕ)
unfolding tick_step turn_work turn_assistant
run c w [] = []
run ticking w (steps ∷ es) = let (fired, w') = tick_step w in fired ∷ run sleeping w' es
run sleeping w (steps ∷ es) = let (c, w') = turn_work w in run c w' es
run turning w (steps ∷ es) = run cascading (turn_assistant w) es
run cascading w (steps ∷ es) = run ticking (cascade w w.current_assistant_wheel_index) es
run c w (adds p t ∷ es) = run c (add_task (place w p t) p t) es
run c w (drops p ∷ es) = run c (release w p) es
