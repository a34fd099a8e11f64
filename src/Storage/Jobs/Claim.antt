-- ===== src/Storage/Jobs/Claim.antt =====
-- crates/homebot-storage/src/lib.rs: `claim_next_routine_job`.
use home_bot.Common.{
  Bool, true, false, not, ◌&&◌, ◌||◌, Option, none, some, List, [], ◌∷◌, ℕ, suc, ok, err, Result,
  if◌then◌else◌, ◌==◌, ltb, leb, find, filterb, take, count, map, is_none,
}
use home_bot.Common.Int.{ℤ, leb_ℤ, ltb_ℤ}
use home_bot.Common.Text.{codes}
use home_bot.Storage.Errors.{StorageError, integrity}
use home_bot.Storage.Jobs.{
  OverlapPolicy, skip, queue, parallel, RoutineTrigger, RoutineTriggerDefinition, RoutineJob, Queue,
  running, failed, skipped, is_running, is_waiting,
}

-- A row of the first SELECT: a job with the definition of its trigger.
abbrev pub Row : Type 0
Row = RoutineJob × RoutineTriggerDefinition

abbrev pub definition_of : List RoutineTrigger → RoutineJob → Option RoutineTriggerDefinition
definition_of triggers job = elim (find (λ t. t.id == job.trigger_id) triggers) [
  | none ↦ none
  | some t ↦ some t.definition
]

-- The JOIN.
unfoldable pub joined : List RoutineTrigger → List RoutineJob → List Row
joined triggers [] = []
joined triggers (job ∷ jobs) =
    let rest = joined triggers jobs in
    elim (definition_of triggers job) [ none ↦ rest | some definition ↦ (job, definition) ∷ rest ]

abbrev pub is_due : (owner_id : ℕ) → (now_ms : ℤ) → RoutineJob → Bool
is_due owner_id now_ms j =
    (j.owner_id == owner_id) && is_waiting j.status && leb_ℤ j.next_attempt_at_ms now_ms

-- `ORDER BY j.next_attempt_at_ms, j.scheduled_for_ms, j.id`.
abbrev pub comes_first : RoutineJob → RoutineJob → Bool
comes_first a b =
    ltb_ℤ a.next_attempt_at_ms b.next_attempt_at_ms
    || (leb_ℤ a.next_attempt_at_ms b.next_attempt_at_ms
        && (ltb_ℤ a.scheduled_for_ms b.scheduled_for_ms
            || (leb_ℤ a.scheduled_for_ms b.scheduled_for_ms && leb a.id b.id)))

unfoldable pub insert_row : Row → List Row → List Row
insert_row r [] = r ∷ []
insert_row r (s ∷ rows) =
    let rest = insert_row r rows in if comes_first r.0 s.0 then r ∷ s ∷ rows else s ∷ rest

unfoldable pub ordered : List Row → List Row
unfolding insert_row
ordered [] = []
ordered (r ∷ rows) = insert_row r (ordered rows)

unfoldable pub due_rows : Queue → (owner_id : ℕ) → (now_ms : ℤ) → List Row
unfolding joined ordered
due_rows q owner_id now_ms =
    take 100 (ordered (joined q.triggers (filterb (is_due owner_id now_ms) q.jobs)))

abbrev pub is_active : (owner_id routine_id : ℕ) → RoutineJob → Bool
is_active owner_id routine_id j =
    (j.owner_id == owner_id) && (j.routine_id == routine_id) && is_running j.status

unfoldable pub can_run : OverlapPolicy → (active : ℕ) → Bool
can_run skip active = active == 0
can_run queue active = active == 0
can_run (parallel maximum) active = ltb active (if ltb maximum 1 then 1 else maximum)

abbrev pub is_skip : OverlapPolicy → Bool
is_skip skip = true
is_skip queue = false
is_skip (parallel maximum) = false

-- `UPDATE … WHERE id = ? AND status IN ('queued','retry_wait')`, to `failed` and to `skipped`.
unfoldable pub exhaust : ℕ → ℤ → RoutineJob → RoutineJob
exhaust id now_ms j =
    if (j.id == id) && is_waiting j.status
    then record j {
      status = failed;
      error_message = some (codes "Routine execution was interrupted at its final attempt");
      finished_at_ms = some now_ms;
    }
    else j

unfoldable pub pass_over : ℕ → ℤ → RoutineJob → RoutineJob
pass_over id now_ms j =
    if (j.id == id) && is_waiting j.status
    then record j {
      status = skipped;
      error_message = some (codes "Skipped because the routine was already running");
      finished_at_ms = some now_ms;
    }
    else j

-- `WHERE id = ? AND status IN ('queued','retry_wait') AND cancel_requested = 0`.
abbrev pub is_startable : ℕ → RoutineJob → Bool
is_startable id j = (j.id == id) && is_waiting j.status && not j.cancel_requested

unfoldable pub start : ℕ → ℤ → RoutineJob → RoutineJob
start id now_ms j =
    if is_startable id j
    then record j {
      status = running;
      attempt_count = suc j.attempt_count;
      started_at_ms = if is_none j.started_at_ms then some now_ms else j.started_at_ms;
    }
    else j

abbrev pub attempt_limit : RoutineTriggerDefinition → ℕ
attempt_limit definition =
    if ltb definition.retry_policy.maximum_attempts 1
    then 1
    else definition.retry_policy.maximum_attempts

abbrev pub u16_max : ℕ
u16_max = 65535

-- One round of the loop: the jobs after it, and whether the row's job was started.
unfoldable pub claim_row :
    List RoutineJob
    → (owner_id : ℕ) → (now_ms : ℤ) → Row
    → Result StorageError (List RoutineJob × Bool)
unfolding can_run exhaust pass_over start
claim_row jobs owner_id now_ms (job, definition) =
    let active = count (is_active owner_id job.routine_id) jobs in
    let runs = can_run definition.overlap_policy active in
    if ltb u16_max job.attempt_count
    then err (integrity (codes "invalid routine attempt count"))
    else if leb (attempt_limit definition) job.attempt_count
    then ok (map (exhaust job.id now_ms) jobs, false)
    else if not runs && is_skip definition.overlap_policy
    then ok (map (pass_over job.id now_ms) jobs, false)
    else if not runs
    then ok (jobs, false)
    else ok (map (start job.id now_ms) jobs, ltb 0 (count (is_startable job.id) jobs))

unfoldable pub claim_rows :
    List RoutineJob
    → (owner_id : ℕ) → (now_ms : ℤ) → List Row
    → Result StorageError (List RoutineJob × Option RoutineJob)
unfolding claim_row
claim_rows jobs owner_id now_ms [] = ok (jobs, none)
claim_rows jobs owner_id now_ms (row ∷ rows) = elim (claim_row jobs owner_id now_ms row) [
  | err e ↦ err e
  | ok (jobs', true) ↦ ok (jobs', find (λ j. j.id == row.0.id) jobs')
  | ok (jobs', false) ↦ claim_rows jobs' owner_id now_ms rows
]

unfoldable pub claim_next_routine_job :
    Queue → (owner_id : ℕ) → (now_ms : ℤ) → Queue × Result StorageError (Option RoutineJob)
unfolding due_rows claim_rows
claim_next_routine_job q owner_id now_ms =
    elim (claim_rows q.jobs owner_id now_ms (due_rows q owner_id now_ms)) [
      | err e ↦ (q, err e)
      | ok (jobs, job) ↦ (record q { jobs = jobs }, ok job)
    ]
