-- ===== src/Domain.antt =====
-- The typed enums of hunter-rs/src/domain.rs. Each is stored as a text and parsed back; an error text is not kept, so a failed parse is `none`.
pub mod Status
pub mod Kinds
pub mod RoundTrip
