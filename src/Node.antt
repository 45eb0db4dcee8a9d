-- ===== src/Node.antt =====
-- internal/node: the driver that runs docker on a node's host.
pub mod Host
pub mod Names
pub mod Containers
pub mod Waits
pub mod Reconciled
pub mod Props
pub mod Egress
pub mod Camera
pub mod Driver
pub mod Extends
pub mod Rebuilt
pub mod Golden
pub mod Quoted
pub mod Rewritten
pub mod Cameras
