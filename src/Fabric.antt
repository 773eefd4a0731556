-- ===== src/Fabric.antt =====
-- The fabric of connected brokers: src/brokerlib/brokerregistry.
pub mod State
pub mod Counted
pub mod Registry
pub mod Subscriber
pub mod Path
pub mod Hierarchy
pub mod Changes
pub mod Bridge
pub mod TopicCache
