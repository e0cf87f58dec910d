-- ===== src/Tests.antt =====
-- The theorems and the definitions at concrete inputs.
mod Samples
mod Texts
mod Rows
mod Picks
mod Writes
mod Daemons
mod Budgets
mod Forges
mod Verdicts
mod Cycles
mod Reports
