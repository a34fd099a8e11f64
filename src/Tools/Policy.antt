-- ===== src/Tools/Policy.antt =====
-- crates/homebot-tools/src/policy.rs. The engine's locks and its atomic counter are the fields of one
-- record, and a call is a function from the engine to the engine and the call's result.
-- `unix_ms()` and `Uuid::now_v7()` enter as the `Draws` of a call; the loop of `retain` reads one time.
pub mod Rules
pub mod Engine
pub mod Authorize
pub mod Effect
pub mod Approvals
pub mod Reachable
pub mod Sound
pub mod Pending
pub mod Race
mod Tests
