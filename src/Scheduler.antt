-- ===== src/Scheduler.antt =====
-- cyber/croutine and cyber/scheduler: routines and the processors that run them.
pub mod Routine
pub mod Classic
mod Tests
