-- ===== src/Wire.antt =====
-- The wire format of packets: src/mqtt-core/lib/net_mosq.c and the encoder in
-- src/mqtt-core/lib/util_mosq.c.
pub mod Packet
pub mod Length
pub mod Fields
pub mod Send
