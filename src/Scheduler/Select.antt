-- ===== src/Scheduler/Select.antt =====
-- The selection of hunter-rs/src/scheduler.rs: `pick_next`, `preview_next` and what they call.
pub mod Tiers
pub mod Resume
pub mod GiveUp
pub mod Rounds
