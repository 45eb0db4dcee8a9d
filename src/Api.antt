-- ===== src/Api.antt =====
-- internal/api: the table of live video sessions, the handlers of leases and settings, the addresses
-- they are given, and the hub of events.
pub mod Sessions
pub mod Leases
pub mod Answers
pub mod Urls
pub mod Masked
pub mod Settings
pub mod Hub
pub mod Wall
pub mod Input
pub mod Socket
pub mod Live
pub mod Stream
pub mod Pictures
pub mod Ui
pub mod Routes
pub mod Listings
