-- ===== src/Scheduler.antt =====
-- hunter-rs/src/scheduler.rs: how the scheduler reads an attempt, what it reserves, what it picks.
pub mod Attempt
pub mod Rotation
pub mod Estimate
pub mod Select
pub mod Fix
pub mod Sync
pub mod Cycle
pub mod Decline
