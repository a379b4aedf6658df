-- ===== src/Store.antt =====
-- internal/store: the SQLite tables and the statements over them.
pub mod Rows
pub mod Tx
pub mod Ledger
pub mod Invoices
pub mod Settings
