-- ===== src/Comm.antt =====
-- The message bus under src/comm.
pub mod Channel
pub mod Socket
