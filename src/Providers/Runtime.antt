-- ===== src/Providers/Runtime.antt =====
-- crates/homebot-providers/src/runtime.rs.
pub mod Defs
pub mod Recover
pub mod Routing
pub mod Cancel
pub mod Overlap
mod Tests
