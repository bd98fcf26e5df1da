-- ===== src/Blocks.antt =====
-- The message passing library under src/blocks.
pub mod Store
pub mod Mailbox
pub mod Process
pub mod Threads
pub mod LuaMessage
pub mod Copy
pub mod Bindings
pub mod LuaState
