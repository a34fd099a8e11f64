-- ===== src/Routines.antt =====
-- crates/homebot-routines: schedules, and the definitions that a routine replays.
pub mod Schedule
pub mod Replay
