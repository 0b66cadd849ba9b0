-- ===== src/Orchestrator.antt =====
-- src/orchestrator.rs: the consumer of the inbound messages of the bus.
pub mod Commands
pub mod Dedup
pub mod Dispatch
pub mod Agent
pub mod Run
