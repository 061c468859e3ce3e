-- ===== src/Accounts.antt =====
-- The Go package internal/accountdb over its Postgres tables.
mod Tests
pub mod Tables
pub mod Results
pub mod Ledger
pub mod Daily
pub mod Keys
pub mod Sessions
pub mod Login
pub mod Rollup
pub mod Report
