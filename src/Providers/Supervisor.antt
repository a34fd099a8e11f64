-- ===== src/Providers/Supervisor.antt =====
-- crates/homebot-providers/src/supervisor.rs.
pub mod Line
pub mod Frames
pub mod Framing
pub mod Diagnostics
pub mod Retained
pub mod Complete
pub mod Spawn
pub mod Process
pub mod Report
mod Tests
