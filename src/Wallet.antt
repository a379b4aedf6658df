-- ===== src/Wallet.antt =====
-- internal/wallet: the spending ceiling, over the store.
pub mod Codec
pub mod Fee
pub mod Freeze
pub mod Spender
pub mod Keeps
pub mod History
pub mod Guards
pub mod Ceiling
pub mod Receiving
