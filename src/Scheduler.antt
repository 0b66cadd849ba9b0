-- ===== src/Scheduler.antt =====
-- The scheduler: gorp-core/src/scheduler.rs and src/scheduler.rs.
pub mod Status
pub mod Store
pub mod Execute
pub mod Tick
pub mod Times
