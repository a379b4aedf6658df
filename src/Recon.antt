-- ===== src/Recon.antt =====
-- internal/recon: the wallet's ceiling against what the node can send.
pub mod Check
pub mod Holds
