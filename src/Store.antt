-- ===== src/Store.antt =====
-- internal/store/store.go: the tables behind the pool, the statements on them and their laws.
pub mod Tables
pub mod Rows
pub mod Sql
pub mod Consistency
pub mod Devices
pub mod Leases
pub mod Keeps
pub mod History
pub mod Claim
pub mod Release
pub mod Upsert
