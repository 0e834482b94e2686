-- ===== src/Integration.antt =====
-- integration: the Mediator that the integration tests run, with its store of peers.
pub mod Store
pub mod Handle
pub mod FakeMediator
pub mod StatefulSocket
pub mod Client
pub mod ClientTest
