-- ===== src/Protocol.antt =====
-- The wire protocol of include/lanlink/protocol and src/protocol.
pub mod Message
pub mod Codec
pub mod Stream
pub mod Packet
pub mod Fanout
pub mod Ipv4
mod Tests
