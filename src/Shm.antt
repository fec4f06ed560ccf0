-- ===== src/Shm.antt =====
-- cyber/transport/shm: messages between processes through blocks of shared memory.
pub mod Conf
pub mod Block
mod Tests
