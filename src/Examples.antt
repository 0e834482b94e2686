-- ===== src/Examples.antt =====
-- Concrete libraries, a concrete system and a concrete key pair, the runs of the model on them, and
-- the theorems applied to them.
pub mod Libraries
pub mod Ciphers
pub mod Scripts
mod Runs
mod Witnesses
mod MediationWitnesses
mod HandshakeWitnesses
mod IntegrationWitnesses
mod FileWitnesses
mod ClientWitnesses
mod AttemptWitnesses
mod WaitingWitnesses
mod RunWitnesses
mod IntroductionWitnesses
mod TransferWitnesses
