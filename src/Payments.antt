-- ===== src/Payments.antt =====
-- cmd/brollyzapper/payments.go: one payment from its reservation to its end, and what a restart makes of
-- those that were left open.
pub mod Closing
pub mod Pay
pub mod Resolve
pub mod Keeps
pub mod Unsure
pub mod Named
pub mod Stale
pub mod Undone
pub mod Recovery
