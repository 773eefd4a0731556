-- ===== src/Subs.antt =====
-- The subscription tree: src/mqtt-core/src/subs.c.
pub mod Tree
pub mod Path
pub mod Add
pub mod Remove
pub mod Deliver
pub mod Clean
pub mod Count
pub mod Counters
pub mod Matching
pub mod Filters
pub mod Lookup
pub mod Announced
pub mod Ends
