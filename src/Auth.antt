-- ===== src/Auth.antt =====
-- Who may publish and subscribe to which topic: src/brokerlib/topicauthorization.
pub mod State
pub mod Rows
pub mod Permits
