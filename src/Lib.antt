-- ===== src/Lib.antt =====
-- Cyber RT, the runtime of the repository: a verification library of its core logic.
--
-- A component (cyber/component) reads its channels through a DataVisitor, whose CacheBuffers the
-- DataDispatcher fills, with several channels joined by AllLatest (cyber/data). Timers hang their tasks
-- into one TimingWheel (cyber/timer). Processes on one host exchange messages in blocks of a shared
-- memory Segment, laid out by ShmConf and guarded by a lock per Block (cyber/transport/shm). Nodes find
-- each other through topology managers, whose Graph joins the writers of a channel to its readers
-- (cyber/service_discovery). Readers in one process share a Blocker for each channel (cyber/blocker).
-- A component's work is a routine (cyber/croutine) that the processors of the scheduler run when a message
-- has come (cyber/scheduler); threads pass work through lock-free queues (cyber/base). Messages are
-- recorded to files in chunks, which a thread of its own writes out (cyber/record).
--
-- Files and the code that they model:
--   Prelude            tests, wrap-around, lists, remainders, signed counters; no code of its own
--   Data/Buffer        cyber/data/cache_buffer.h: `store` and `fill` are Fill, `at` is at, `full` Full
--   Data/Channel       cyber/data/channel_buffer.h: `fetch`, `latest`, `fetch_multi`
--   Data/Visitor       cyber/data/data_visitor.h: `try_fetch` is TryFetch of the one-channel visitor
--   Data/Dispatch      cyber/data/data_dispatcher.h and data_notifier.h: `dispatch` is Dispatch, `attach` the
--                      constructor of a one-channel visitor, `happen` a call of any of them
--   Data/Fusion        cyber/data/fusion/all_latest.h: `fuse` is the callback, `fusion` is Fusion
--   Timer/Wheel        cyber/timer/timing_wheel.cc: `tick`, `add_task`, `cascade`; `run` takes the
--                      steps of a round of TickFunc one by one
--   Timer/Control      cyber/timer/timer.cc: `start`, `stop`, `init_timer_task`, `reschedule`
--   Shm/Conf           cyber/transport/shm/shm_conf.cc: `update` is Update
--   Shm/Block          cyber/transport/shm/block.cc: `act` is one atomic step of the lock functions
--   Discovery/Keys     strings and hash maps with string keys
--   Discovery/Graph    cyber/service_discovery/container/graph.cc: `insert`, `delete`,
--                      `level_traverse`, `get_direction_of`
--   Discovery/Role     cyber/service_discovery/role/role.cc: `match` is Match
--   Discovery/Warehouse  cyber/service_discovery/container: `Multi` is multi_value_warehouse.cc and
--                      `Single` single_value_warehouse.cc
--   Discovery/Manager  cyber/service_discovery/specific_manager/manager.cc: `join`, `leave`,
--                      `on_remote_change`; Channels, Nodes and Services beside it are channel_manager.cc,
--                      node_manager.cc and service_manager.cc: `dispose`, `on_topo_module_leave`
--   Blocker            cyber/blocker/blocker.h: `publish`, `observe`, `set_capacity`; `Blocker/Range`
--                      the iterators of cyber/blocker/intra_reader.h
--   Blocker/Manager    cyber/blocker/blocker_manager.h: `publish_channel`, `subscribe_channel`;
--                      Blocker/Reader the calls of cyber/blocker/intra_reader.h
--   History            cyber/transport/message/history.h: `add`, `get_cached_message`
--   Base/Bounded       cyber/base/bounded_queue.h: `move` is one atomic step of Enqueue and Dequeue, `run`
--                      any interleaving of threads, each of which is a numbered phase
--   Base/RwLock        cyber/base/atomic_rw_lock.h: `act` is one atomic step of the four functions
--   Scheduler/Routine  cyber/croutine/croutine.h with the threads of cyber/scheduler that share a routine:
--                      `move` is one step of Processor::Run, NotifyProcessor or RemoveCRoutine
--   Scheduler/Classic  cyber/scheduler/policy/classic_context.cc: `next_routine` is NextRoutine, as one step
--   Record             cyber/record: Record/Writer is file/record_file_writer.cc, where a call of
--                      WriteMessage and a pass of Flush are steps in any order; Record/Reader is
--                      record_reader.cc over file/record_file_reader.cc; Record/File the sections of
--                      both; Record/Segments is record_writer.cc. Record/Plan is a writer without bytes,
--                      for the proofs
--   Messages           cyber/transport/message/message_info.cc and cyber/transport/shm/readable_info.cc:
--                      `serialize_…` is SerializeTo, `deserialize_…` DeserializeFrom
-- The modules below a component's module hold its proofs; Tests modules hold runs and the theorems at
-- concrete inputs.
--
-- Conventions. A uint64_t is a natural number, with its wrap-around written out; theorems that need it
-- bound the number of messages or rounds. An output parameter that a call leaves alone is `none`. A
-- mutex makes a call one step; atomics are separate steps of numbered threads in any order, as with
-- sequentially consistent atomics. A counter of holders of a lock is a signed 32-bit number that wraps,
-- and the theorems about it bound the number of threads. A weak pointer is a key into a heap. The order of a hash map's entries
-- under one key is that of their arrival here, and theorems speak of multisets where it is left open.
-- The files of a recording are a list in which a file stands with the number in its name. A file is its bytes and a
-- position; writes to it succeed, and protocol buffers are a codec for each message, of which a
-- theorem asks that it parses what it has serialised. Loops are recursions on their list, or on fuel:
-- as many rounds as the loop can make, and one more where the last test needs one (FetchMulti,
-- LevelTraverse, the loops that cut the queues of Blocker and History); as many rounds as the file has
-- bytes, each of which reads a section, for the loops of RecordReader. The theorems state the whole
-- result, so the fuel is enough.
--
-- Not modelled: the asynchronous run of callbacks, sleeping and clocks, protocol buffers, FastRTPS, the
-- operating system, and the parts of the repository that the modules above do not name.
pub mod Prelude
pub mod Data
pub mod Timer
pub mod Shm
pub mod Discovery
pub mod Blocker
pub mod History
pub mod Messages
pub mod Base
pub mod Scheduler
pub mod Record
