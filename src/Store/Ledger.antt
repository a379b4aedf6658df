-- ===== src/Store/Ledger.antt =====
-- internal/store/balance.go: the append-only ledger and the reservations against it.
pub mod Append
pub mod Reserve
pub mod Close
pub mod Marks
pub mod Sums
pub mod Invariant
pub mod Safety
pub mod Closing
pub mod Settling
pub mod Fees
pub mod ByHand
pub mod Updates
pub mod Effects
pub mod Reserving
pub mod Marking
pub mod Once
pub mod Steps
