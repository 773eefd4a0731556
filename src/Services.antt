-- ===== src/Services.antt =====
-- The services that answer requests: src/brokerlib/serviceregistry.
pub mod Registration
pub mod Zone
pub mod Topic
pub mod Metrics
pub mod Events
pub mod Registry
