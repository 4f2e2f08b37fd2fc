-- ===== src/Gateway.antt =====
-- The package `src/gateway_service`.
pub mod Repository
pub mod Log
pub mod LogTests
pub mod Client
pub mod Main
pub mod Database
