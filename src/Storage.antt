-- ===== src/Storage.antt =====
-- crates/homebot-storage/src/lib.rs: the tables of the database and the operations on them.
pub mod Errors
pub mod Idempotency
pub mod Jobs
pub mod Outbox
pub mod Pairing
mod Tests
