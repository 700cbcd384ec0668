-- ===== src/Smoke.antt =====
-- The smoke run's assertions: compose/smoke_checks.py, smoke_rows.py and smoke_lake.py.
pub mod Exact
pub mod Policy
pub mod Ledger
pub mod Lake
pub mod Rows
pub mod Objects
pub mod Procedures
pub mod Commands
mod Tests
mod Answers
