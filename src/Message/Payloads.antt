-- ===== src/Message/Payloads.antt =====
-- The payload structs of include/p2psc/message, each with its `Payload` instance.
pub mod Mediation
pub mod Handshake
