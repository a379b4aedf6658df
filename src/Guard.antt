-- ===== src/Guard.antt =====
-- internal/guard: the caps that a compromised server cannot raise.
pub mod Price
pub mod Window
pub mod Sums
pub mod Log
pub mod Refines
pub mod Caps
pub mod Operator
pub mod Loosening
pub mod Grants
pub mod Ceremony
pub mod Pair
pub mod File
pub mod Keys
