-- ===== src/Shared.antt =====
-- The package `src/event_ledger_common`: what both services share.
pub mod Text
pub mod Trace
pub mod Time
pub mod Decimal
pub mod Binary64
pub mod Contracts
pub mod Rows
pub mod Database
pub mod Metrics
pub mod Logging
pub mod Middleware
pub mod Tests
pub mod RequestTests
