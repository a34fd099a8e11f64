-- ===== src/Storage/Jobs.antt =====
-- crates/homebot-storage/src/lib.rs: the durable queue of routine jobs, with the tables of
-- crates/homebot-storage/migrations/0011, and what crates/homebot-routines/src/schedule.rs says of a
-- trigger. Identifiers are numbers and JSON columns are texts.
pub mod Claim
pub mod Change
pub mod Backoff
pub mod Within
pub mod Selected
pub mod Overlap
pub mod Steps
pub mod Running
use home_bot.Common.{
  Bool, true, false, not, ◌&&◌, ◌||◌, Option, none, some, List, [], ◌∷◌, ◌++◌, ℕ, ok, err, Result,
  if◌then◌else◌, ◌==◌, any,
}
use home_bot.Common.Int.{ℤ}
use home_bot.Common.Text.{Text, text_eq}
use home_bot.Routines.Schedule.Defs.{RoutineSchedule, MissedRunPolicy}
use home_bot.Storage.Errors.{StorageError, sql}

pub data RoutineTriggerSource : Type 0 where
  schedule : RoutineSchedule → RoutineTriggerSource
  webhook : (slug : Text) → RoutineTriggerSource
  event : (event_kind : Text) → RoutineTriggerSource
  plugin : (plugin_id : ℕ) (event_kind : Text) → RoutineTriggerSource

pub data OverlapPolicy : Type 0 where
  skip queue : OverlapPolicy
  parallel : (maximum : ℕ) → OverlapPolicy

pub record RetryPolicy : Type 0 where
  pub maximum_attempts : ℕ
  pub initial_backoff_seconds : ℕ
  pub maximum_backoff_seconds : ℕ

pub record RoutineTriggerDefinition : Type 0 where
  pub source : RoutineTriggerSource
  pub missed_run_policy : MissedRunPolicy
  pub overlap_policy : OverlapPolicy
  pub retry_policy : RetryPolicy
  pub catch_up_limit : ℕ

-- A row of `routine_triggers`, a `RoutineTriggerRecord`.
pub record RoutineTrigger : Type 0 where
  pub id : ℕ
  pub owner_id : ℕ
  pub routine_id : ℕ
  pub definition : RoutineTriggerDefinition
  pub enabled : Bool
  pub last_evaluated_at_ms : Option ℤ
  pub next_fire_at_ms : Option ℤ
  pub last_event_sequence : ℕ
  pub created_at_ms : ℤ
  pub updated_at_ms : ℤ

pub data JobStatus : Type 0 where
  queued running retry_wait succeeded failed cancelled skipped : JobStatus

pub record RoutineJob : Type 0 where
  pub id : ℕ
  pub owner_id : ℕ
  pub trigger_id : ℕ
  pub routine_id : ℕ
  pub routine_version_id : ℕ
  pub delivery_key : Text
  pub trigger : Text
  pub inputs : Text
  pub status : JobStatus
  pub attempt_count : ℕ
  pub scheduled_for_ms : ℤ
  pub next_attempt_at_ms : ℤ
  pub cancel_requested : Bool
  pub error_message : Option Text
  pub created_at_ms : ℤ
  pub started_at_ms : Option ℤ
  pub finished_at_ms : Option ℤ

-- A row of `routine_trigger_deliveries`.
pub record Delivery : Type 0 where
  pub trigger_id : ℕ
  pub delivery_key : Text
  pub received_at_ms : ℤ

pub record Queue : Type 0 where
  pub triggers : List RoutineTrigger
  pub jobs : List RoutineJob
  pub deliveries : List Delivery

pub data RoutineJobClaim : Type 0 where
  claimed replayed : RoutineJobClaim

abbrev pub is_running : JobStatus → Bool
is_running queued = false
is_running running = true
is_running retry_wait = false
is_running succeeded = false
is_running failed = false
is_running cancelled = false
is_running skipped = false

-- `status IN ('queued','retry_wait')`.
abbrev pub is_waiting : JobStatus → Bool
is_waiting queued = true
is_waiting running = false
is_waiting retry_wait = true
is_waiting succeeded = false
is_waiting failed = false
is_waiting cancelled = false
is_waiting skipped = false

-- The statement breaks a constraint of `routine_jobs`: its keys, and that the trigger exists. That
-- the routine and its version exist is not modelled.
unfoldable pub job_refused : Queue → RoutineJob → Bool
job_refused q new_job =
    any (λ j. j.id == new_job.id) q.jobs
    || any
        (λ j. (j.trigger_id == new_job.trigger_id) && text_eq j.delivery_key new_job.delivery_key)
        q.jobs
    || not (any (λ t. t.id == new_job.trigger_id) q.triggers)

unfoldable pub enqueue_routine_job :
    Queue → RoutineJob → Queue × Result StorageError RoutineJobClaim
unfolding job_refused
enqueue_routine_job q new_job =
    let delivery : Delivery = record {
      trigger_id = new_job.trigger_id;
      delivery_key = new_job.delivery_key;
      received_at_ms = new_job.created_at_ms;
    } in
    if any
      (λ d. (d.trigger_id == new_job.trigger_id) && text_eq d.delivery_key new_job.delivery_key)
      q.deliveries
    then (q, ok replayed)
    else if job_refused q new_job
    then (q, err sql)
    else (
      record q { jobs = q.jobs ++ new_job ∷ []; deliveries = q.deliveries ++ delivery ∷ [] },
      ok claimed,
    )
