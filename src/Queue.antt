-- ===== src/Queue.antt =====
-- The message queue of a context: src/mqtt-core/src/database.c.
pub mod Insert
pub mod Delete
pub mod Reset
pub mod Shared
pub mod Write
pub mod Balance
pub mod Progress
pub mod Limits
