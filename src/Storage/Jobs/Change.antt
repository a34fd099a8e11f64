-- ===== src/Storage/Jobs/Change.antt =====
-- crates/homebot-storage/src/lib.rs: the ends, retries and cancellations of routine jobs; the job of
-- a delivery is from crates/homebot-server/src/scheduler.rs.
use home_bot.Common.{
  Bool, true, false, not, ◌&&◌, ◌||◌, Option, none, some, ℕ, ◌*◌, ◌^◌, ◌-◌, ok, err, Result,
  if◌then◌else◌, ◌==◌, ltb, leb, any, find, count, map,
}
use home_bot.Common.Int.{ℤ, pos, ltb_ℤ, ◌+ℤ◌, saturated}
use home_bot.Common.Text.{Text, codes}
use home_bot.Storage.Errors.{StorageError, integrity, routine_job_not_found}
use home_bot.Storage.Jobs.{
  RoutineTrigger, RetryPolicy, RoutineJob, JobStatus, Queue, queued, running, retry_wait, succeeded,
  failed, cancelled, skipped, is_running, is_waiting,
}
use home_bot.Storage.Jobs.Claim.{definition_of, attempt_limit, u16_max}

-- The record that `enqueue_delivery` makes for a trigger.
unfoldable pub delivered_job :
    RoutineTrigger
    → (id owner_id version_id : ℕ) → (delivery_key source inputs : Text)
    → (scheduled_for_ms created : ℤ) → RoutineJob
delivered_job trigger id owner_id version_id delivery_key source inputs scheduled_for_ms created =
    record {
      id = id;
      owner_id = owner_id;
      trigger_id = trigger.id;
      routine_id = trigger.routine_id;
      routine_version_id = version_id;
      delivery_key = delivery_key;
      trigger = source;
      inputs = inputs;
      status = queued;
      attempt_count = 0;
      scheduled_for_ms = scheduled_for_ms;
      next_attempt_at_ms = if ltb_ℤ created scheduled_for_ms then scheduled_for_ms else created;
      cancel_requested = false;
      error_message = none;
      created_at_ms = created;
      started_at_ms = none;
      finished_at_ms = none;
    }

-- `WHERE owner_id = ? AND id = ?`.
abbrev pub is_job : (owner_id job_id : ℕ) → RoutineJob → Bool
is_job owner_id job_id j = (j.owner_id == owner_id) && (j.id == job_id)

abbrev pub is_terminal : JobStatus → Bool
is_terminal queued = false
is_terminal running = false
is_terminal retry_wait = false
is_terminal succeeded = true
is_terminal failed = true
is_terminal cancelled = true
is_terminal skipped = false

unfoldable pub finish :
    (owner_id job_id : ℕ) → JobStatus → Option Text → ℤ → RoutineJob → RoutineJob
finish owner_id job_id status error_message finished_at_ms j =
    if is_job owner_id job_id j && is_running j.status
    then record j {
      status = status;
      error_message = error_message;
      finished_at_ms = some finished_at_ms;
    }
    else j

unfoldable pub finish_routine_job :
    Queue
    → (owner_id job_id : ℕ) → JobStatus
    → Option Text
    → ℤ
    → Queue × Result StorageError (Unit {0})
unfolding finish
finish_routine_job q owner_id job_id status error_message finished_at_ms =
    if not (is_terminal status)
    then (q, err (integrity (codes "invalid routine job terminal status")))
    else if not (any (λ j. is_job owner_id job_id j && is_running j.status) q.jobs)
    then (q, err routine_job_not_found)
    else (
      record q { jobs = map (finish owner_id job_id status error_message finished_at_ms) q.jobs },
      ok tt,
    )

abbrev pub u64_max : ℕ
u64_max = 18446744073709551615

-- `u64::saturating_mul`.
abbrev pub saturating_mul : ℕ → ℕ → ℕ
saturating_mul a b = if ltb u64_max (a * b) then u64_max else a * b

abbrev pub min_of : ℕ → ℕ → ℕ
min_of a b = if ltb b a then b else a

-- The delay before the next attempt. The shift is by 31 at most, below the width of `u64`.
unfoldable pub backoff_seconds : RetryPolicy → (attempts : ℕ) → ℕ
backoff_seconds policy attempts =
    let multiplier = 2 ^ min_of (attempts - 1) 31 in
    min_of (saturating_mul policy.initial_backoff_seconds multiplier)
      (if ltb policy.maximum_backoff_seconds 1 then 1 else policy.maximum_backoff_seconds)

-- `i64::try_from(…).unwrap_or(i64::MAX)` of the delay in milliseconds.
unfoldable pub backoff_ms : RetryPolicy → (attempts : ℕ) → ℕ
unfolding backoff_seconds
backoff_ms policy attempts =
    min_of (saturating_mul (backoff_seconds policy attempts) 1000) 9223372036854775807

unfoldable pub delay : (owner_id job_id : ℕ) → Text → ℤ → RoutineJob → RoutineJob
delay owner_id job_id error_message next_attempt_at_ms j =
    if is_job owner_id job_id j && is_running j.status
    then record j {
      status = retry_wait;
      error_message = some error_message;
      next_attempt_at_ms = next_attempt_at_ms;
    }
    else j

unfoldable pub retry_or_fail_routine_job :
    Queue → (owner_id job_id : ℕ) → Text → ℤ → Queue × Result StorageError Bool
unfolding finish_routine_job backoff_ms delay
retry_or_fail_routine_job q owner_id job_id error_message now_ms =
    elim (find (λ j. is_job owner_id job_id j && is_running j.status) q.jobs) [
      | none ↦ (q, err routine_job_not_found)
      | some job ↦ elim (definition_of q.triggers job) [
        | none ↦ (q, err routine_job_not_found)
        | some definition ↦
            if ltb u16_max job.attempt_count
            then (q, err (integrity (codes "invalid routine job attempt count")))
            else if leb (attempt_limit definition) job.attempt_count
            then (let (q', finished) =
                  finish_routine_job q owner_id job_id failed (some error_message) now_ms in
                (q', elim finished [ err e ↦ err e | ok _ ↦ ok false ]))
            else (
              record q {
                jobs =
                    map
                      (delay owner_id job_id error_message (
                        saturated
                          (now_ms +ℤ pos (backoff_ms definition.retry_policy job.attempt_count))))
                      q.jobs;
              },
              ok true,
            )
      ]
    ]

unfoldable pub cancel : (owner_id job_id : ℕ) → ℤ → RoutineJob → RoutineJob
cancel owner_id job_id now_ms j =
    if is_job owner_id job_id j && (is_waiting j.status || is_running j.status)
    then record j {
      cancel_requested = true;
      status = if is_waiting j.status then cancelled else j.status;
      finished_at_ms = if is_waiting j.status then some now_ms else j.finished_at_ms;
    }
    else j

unfoldable pub cancel_routine_job :
    Queue → (owner_id job_id : ℕ) → ℤ → Queue × Result StorageError (Unit {0})
unfolding cancel
cancel_routine_job q owner_id job_id now_ms =
    if not
      (any (λ j. is_job owner_id job_id j && (is_waiting j.status || is_running j.status)) q.jobs)
    then (q, err routine_job_not_found)
    else (record q { jobs = map (cancel owner_id job_id now_ms) q.jobs }, ok tt)

unfoldable pub recover : (owner_id : ℕ) → ℤ → RoutineJob → RoutineJob
recover owner_id now_ms j =
    if (j.owner_id == owner_id) && is_running j.status
    then record j {
      status = if j.cancel_requested then cancelled else retry_wait;
      next_attempt_at_ms = if j.cancel_requested then j.next_attempt_at_ms else now_ms;
      error_message = some (codes "Routine execution was interrupted by server restart");
      finished_at_ms = if j.cancel_requested then some now_ms else none;
    }
    else j

-- The number of jobs recovered is returned with the queue.
unfoldable pub recover_interrupted_routine_jobs : Queue → (owner_id : ℕ) → ℤ → Queue × ℕ
unfolding recover
recover_interrupted_routine_jobs q owner_id now_ms = (
  record q { jobs = map (recover owner_id now_ms) q.jobs },
  count (λ j. (j.owner_id == owner_id) && is_running j.status) q.jobs,
)
