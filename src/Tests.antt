-- ===== src/Tests.antt =====
-- Runs of the model on small tables, which show each result at work.
pub mod Fixtures
pub mod Ledger
pub mod Api
pub mod Guard
pub mod Ladder
pub mod Keys
pub mod Service
pub mod Zap
pub mod Payments
pub mod Nwc
pub mod Wallet
