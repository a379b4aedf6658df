-- ===== src/Guard/Keys.antt =====
-- guard/guard.go, spend.go, orphans.go and rootkey.go: the root keys that the guard has the node create, the
-- credentials baked under them, and what it records so that it can revoke them.
pub mod Ids
pub mod World
pub mod Sweep
pub mod Bake
pub mod Sending
pub mod Revoking
pub mod Remembered
pub mod Recording
pub mod Baking
pub mod Ending
pub mod Switch
pub mod Spared
