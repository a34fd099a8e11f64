-- ===== src/Routines/Replay.antt =====
-- crates/homebot-routines/src/lib.rs.
pub mod Defs
pub mod Steps
pub mod Run
pub mod Boundary
pub mod Inputs
pub mod Recording
mod Tests
