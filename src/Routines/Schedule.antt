-- ===== src/Routines/Schedule.antt =====
-- crates/homebot-routines/src/schedule.rs. Timestamps are integers that stand for `i64` values, with
-- the source's checked and saturating operations; chrono, chrono-tz and croner are a `Calendar`.
pub mod Defs
pub mod Due
pub mod Interval
pub mod Local
pub mod Scan
pub mod Window
pub mod Backlog
mod Tests
