-- ===== src/Data.antt =====
-- cyber/data: the per-channel buffers between a dispatcher and the readers of a component.
pub mod Buffer
pub mod Channel
pub mod Visitor
pub mod Fusion
pub mod Dispatch
mod Tests
