-- ===== src/Store.antt =====
-- The database of hunter-rs/src/store.rs: its tables as lists of rows, and its statements as
-- functions on them. Every statement succeeds: a failing database is not modelled. The clock of
-- a statement is its argument `now`, in milliseconds. The event log and the columns that no
-- modelled statement reads are left out.
pub mod Rows
pub mod Findings
pub mod Dependencies
pub mod Jobs
pub mod FullHunt
pub mod PullRequests
