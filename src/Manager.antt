-- ===== src/Manager.antt =====
-- internal/pool/manager.go. The node driver and the clock are parameters; the state is the database
-- and the driver calls made so far, newest first.
pub mod World
pub mod Index
pub mod Rebuild
pub mod Settings
pub mod Keeps
pub mod Clean
pub mod Reset
pub mod Renamed
pub mod Ensured
pub mod Upkeep
