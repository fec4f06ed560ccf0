-- ===== src/Base.antt =====
-- cyber/base: containers and locks that threads share.
pub mod Bounded
pub mod RwLock
mod Tests
