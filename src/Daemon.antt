-- ===== src/Daemon.antt =====
-- The parts of hunter-rs/src/daemon.rs between the cycles.
pub mod Reconcile
pub mod Recovered
pub mod Sleep
