-- ===== src/Message.antt =====
-- The messages of the protocol (include/p2psc/message).
pub mod Types
pub mod Codec
pub mod Format
pub mod Payloads
pub mod RoundTrip
pub mod Names
