-- ===== src/Forge.antt =====
-- hunter-rs/src/forge.rs: what is read of a pull request on its forge, and from whom.
pub mod States
pub mod Screen
pub mod Lookup
pub mod Urls
