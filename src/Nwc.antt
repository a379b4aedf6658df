-- ===== src/Nwc.antt =====
-- internal/nwc, with its tables in internal/store/nwc.go: what a paired wallet app may spend.
pub mod Budget
pub mod Windows
pub mod Spends
pub mod Corrections
pub mod Amount
pub mod Ladder
pub mod Limit
pub mod Rate
pub mod Copies
pub mod RouteFee
pub mod Charged
pub mod Gates
pub mod Settled
pub mod Books
pub mod Requests
pub mod Service
pub mod Once
pub mod Silent
pub mod Replays
pub mod Authorised
pub mod Connections
pub mod Lifecycle
