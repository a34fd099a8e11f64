-- ===== src/Storage/Jobs/Within.antt =====
-- The jobs of a routine that run, and the statements that change jobs
-- (crates/homebot-storage/src/lib.rs).
use home_bot.Common.{
  ◌≡◌, refl, Bool, true, ◌&&◌, none, some, List, [], ◌∷◌, map, ℕ, ◌+◌, ◌≤◌, ◌<◌, arith, ◌==◌, ltb,
  count, if◌then◌else◌, All,
}
use home_bot.Common.Int.{ℤ}
use home_bot.Storage.Jobs.{
  OverlapPolicy, skip, queue, parallel, RoutineTrigger, RoutineJob, is_running,
}
use home_bot.Storage.Jobs.Claim.{definition_of, is_active, can_run, exhaust, pass_over, start}

-- How many jobs a policy allows at a time.
abbrev pub capacity : OverlapPolicy → ℕ
capacity skip = 1
capacity queue = 1
capacity (parallel maximum) = if ltb maximum 1 then 1 else maximum

pub can_run-capacity :
    (policy : OverlapPolicy) (active : ℕ) → can_run policy active ≡ true → active < capacity policy
unfolding can_run
can_run-capacity skip active h = ground arith
can_run-capacity queue active h = ground arith
can_run-capacity (parallel maximum) active h = ground arith

module _ (owner_id routine_id maximum : ℕ) where
  abbrev pub is_at : RoutineJob → Bool
  is_at j = (j.owner_id == owner_id) && (j.routine_id == routine_id)

  abbrev pub allowed : List RoutineTrigger → RoutineJob → ℕ
  allowed triggers j = elim (definition_of triggers j) [
    | none ↦ 0
    | some definition ↦ if is_at j then capacity definition.overlap_policy else 0
  ]

  -- The jobs have different identifiers, those of the routine are of triggers that allow `maximum` of
  -- them at most, and no more of them run.
  abbrev pub IsWithin : List RoutineTrigger → List RoutineJob → Type 0
  IsWithin triggers jobs =
      ((id : ℕ) → count (λ j. j.id == id) jobs ≤ 1)
      × All (λ j. allowed triggers j ≤ maximum) jobs
      × (count (is_active owner_id routine_id) jobs ≤ maximum)

  -- A change of rows that keeps whose jobs they are, and starts none.
  abbrev pub IsQuiet : (RoutineJob → RoutineJob) → Type 0
  IsQuiet f =
      (j : RoutineJob)
      → ((f j).id ≡ j.id)
        × ((f j).owner_id ≡ j.owner_id)
        × ((f j).routine_id ≡ j.routine_id)
        × ((f j).trigger_id ≡ j.trigger_id)

  abbrev pub StartsNone : (RoutineJob → RoutineJob) → Type 0
  StartsNone f = (j : RoutineJob) → is_running (f j).status ≡ true → is_running j.status ≡ true

  pub map-ids :
      (f : RoutineJob → RoutineJob) (id : ℕ) (jobs : List RoutineJob)
      → IsQuiet f
      → count (λ j. j.id == id) (map f jobs) ≡ count (λ j. j.id == id) jobs
  map-ids f id [] quiet = refl
  map-ids f id (j ∷ jobs) quiet = rw (quiet j).0 (ground (arith, map-ids f id jobs quiet))

  pub map-allowed :
      (f : RoutineJob → RoutineJob) (triggers : List RoutineTrigger) (jobs : List RoutineJob)
      → IsQuiet f
      → All (λ j. allowed triggers j ≤ maximum) jobs
      → All (λ j. allowed triggers j ≤ maximum) (map f jobs)
  map-allowed f triggers [] quiet within = tt
  map-allowed f triggers (j ∷ jobs) quiet (first, rest) =
      let (id, owner, routine, trigger) = quiet j in
      (rw (owner, routine, trigger) first, map-allowed f triggers jobs quiet rest)

  map-active :
      (f : RoutineJob → RoutineJob) (jobs : List RoutineJob)
      → IsQuiet f
      → StartsNone f
      → count (is_active owner_id routine_id) (map f jobs)
        ≤ count (is_active owner_id routine_id) jobs
  map-active f [] quiet starts = ground arith
  map-active f (j ∷ jobs) quiet starts =
      let (id, owner, routine, trigger) = quiet j in
      rw (owner, routine) (ground (arith, map-active f jobs quiet starts, starts j))

  pub map-IsWithin :
      (f : RoutineJob → RoutineJob) (triggers : List RoutineTrigger) (jobs : List RoutineJob)
      → IsQuiet f
      → StartsNone f
      → IsWithin triggers jobs
      → IsWithin triggers (map f jobs)
  map-IsWithin f triggers jobs quiet starts (ids, within, active) = (
    (λ id. rw (map-ids f id jobs quiet) (ids id)),
    map-allowed f triggers jobs quiet within,
    omega (arith, map-active f jobs quiet starts, active),
  )

  -- The rows of a job's identifier that are of the routine.
  abbrev pub same_at : ℕ → RoutineJob → Bool
  same_at id j = (j.id == id) && is_at j

  pub map-same_at :
      (f : RoutineJob → RoutineJob) (id : ℕ) (jobs : List RoutineJob)
      → IsQuiet f
      → count (same_at id) (map f jobs) ≡ count (same_at id) jobs
  map-same_at f id [] quiet = refl
  map-same_at f id (j ∷ jobs) quiet =
      let (same, owner, routine, trigger) = quiet j in
      rw (same, owner, routine) (ground (arith, map-same_at f id jobs quiet))

  pub exhaust-IsQuiet :
      (id : ℕ) (now_ms : ℤ) → IsQuiet (exhaust id now_ms) × StartsNone (exhaust id now_ms)
  unfolding exhaust
  exhaust-IsQuiet id now_ms =
      ((λ j. (ground arith, ground arith, ground arith, ground arith)), λ j h. ground arith)

  pub pass_over-IsQuiet :
      (id : ℕ) (now_ms : ℤ) → IsQuiet (pass_over id now_ms) × StartsNone (pass_over id now_ms)
  unfolding pass_over
  pass_over-IsQuiet id now_ms =
      ((λ j. (ground arith, ground arith, ground arith, ground arith)), λ j h. ground arith)

  pub start-IsQuiet : (id : ℕ) (now_ms : ℤ) → IsQuiet (start id now_ms)
  unfolding start
  start-IsQuiet id now_ms = λ j. (ground arith, ground arith, ground arith, ground arith)

  pub start-active :
      (id : ℕ) (now_ms : ℤ) (jobs : List RoutineJob)
      → count (is_active owner_id routine_id) (map (start id now_ms) jobs)
        ≤ count (is_active owner_id routine_id) jobs + count (same_at id) jobs
  unfolding start
  start-active id now_ms [] = ground arith
  start-active id now_ms (j ∷ jobs) = ground (arith, start-active id now_ms jobs)
