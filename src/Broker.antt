-- ===== src/Broker.antt =====
-- The state of the MQTT core in src/mqtt-core: messages, contexts, the database.
pub mod Message
pub mod Context
pub mod Store
pub mod Clients
pub mod Slots
