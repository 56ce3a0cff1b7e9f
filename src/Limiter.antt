-- ===== src/Limiter.antt =====
-- limiter/limiter.go and limiter/rule.go: speed and device limits of one node's users.
pub mod State
pub mod Refs
pub mod Gate
pub mod Cooldown
pub mod Conn
pub mod Valid
pub mod Users
pub mod Devices
pub mod Limit
pub mod Rules
pub mod History
pub mod Bound
mod Tests
