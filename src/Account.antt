-- ===== src/Account.antt =====
-- The package `src/account_service`.
pub mod Repository
pub mod Ledger
pub mod Balance
pub mod Deliveries
pub mod Order
pub mod Unreadable
pub mod Details
pub mod Main
pub mod Database
pub mod Tests
pub mod OrderTests
