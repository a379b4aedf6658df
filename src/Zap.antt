-- ===== src/Zap.antt =====
-- internal/zap: the receipts that tell a sender that a zap has arrived, and their retries.
pub mod Queue
pub mod Publish
pub mod Batch
pub mod Join
pub mod Drains
pub mod Backoff
pub mod Stays
pub mod Kept
