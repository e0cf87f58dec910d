-- ===== src/Server.antt =====
-- The routes of hunter-rs/src/server.rs.
pub mod Operator
pub mod Verdicts
pub mod Conflicts
