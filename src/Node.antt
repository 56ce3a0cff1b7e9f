-- ===== src/Node.antt =====
-- node/: the controller of one node. It keeps the panel's user list, the core's users and the
-- limiter's table in step.
pub mod Users
pub mod Controller
pub mod Monitor
pub mod Deltas
pub mod Report
pub mod Start
pub mod Socket
mod Tests
