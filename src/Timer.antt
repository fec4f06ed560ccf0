-- ===== src/Timer.antt =====
-- cyber/timer: the timing wheel and the timers that it fires.
pub mod Wheel
pub mod Control
mod Tests
