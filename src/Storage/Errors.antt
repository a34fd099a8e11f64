-- ===== src/Storage/Errors.antt =====
-- crates/homebot-storage/src/lib.rs: `StorageError`, with the errors that the modelled operations
-- return.
use home_bot.Common.Text.{Text}

-- `sql` stands for the errors of the database: a constraint that a statement breaks among them.
pub data StorageError : Type 0 where
  sql : StorageError
  integrity : Text → StorageError
  routine_job_not_found : StorageError
  pairing_not_found pairing_expired pairing_consumed : StorageError
  pairing_origin_mismatch pairing_rate_limited device_session_not_found : StorageError
