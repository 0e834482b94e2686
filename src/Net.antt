-- ===== src/Net.antt =====
-- The objects and effects of a connection attempt: the operating system as a parameter, the state
-- that a thread changes, and the socket classes.
pub mod Objects
pub mod System
pub mod Run
pub mod Socket
pub mod Listening
pub mod Messages
pub mod Silence
pub mod Bounds
