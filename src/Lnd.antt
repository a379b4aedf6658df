-- ===== src/Lnd.antt =====
-- internal/lnd: what the node answers about payments.
pub mod Payments
