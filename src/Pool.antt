-- ===== src/Pool.antt =====
-- internal/pool/model.go: the domain model. One child for each group of its types, and the proofs.
pub mod State
pub mod Time
pub mod Identity
pub mod Lease
pub mod Location
pub mod Watchdog
