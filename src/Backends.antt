-- ===== src/Backends.antt =====
-- hunter-rs/src/backend.rs and hunter-rs/src/backends/omp_scavenge: whether a job may spend now.
pub mod Floats
pub mod Provider
pub mod Capacity
pub mod Decide
pub mod Overdrive
