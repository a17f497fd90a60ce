-- ===== src/Tests.antt =====
-- Sample data, runs of the definitions on it, and the theorems applied to it.
pub mod Fixtures
mod Codec
mod Descriptors
mod Service
mod Transport
mod Exchange
mod Orchestration
mod Registry
mod Sessions
mod Signals
