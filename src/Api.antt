-- ===== src/Api.antt =====
-- internal/api: the limits on what a stranger may ask for.
pub mod Limiter
pub mod Windows
