-- ===== src/Storage/Jobs/Backoff.antt =====
-- The delay of a retry (crates/homebot-storage/src/lib.rs, `retry_or_fail_routine_job`).
