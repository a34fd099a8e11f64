-- ===== src/Storage/Jobs/Overlap.antt =====
-- How many jobs of a routine run at a time (crates/homebot-storage/src/lib.rs,
-- `claim_next_routine_job`).
use home_bot.Common.{
  ◌≡◌, refl, sym, ◌∙◌, Bool, true, false, Option, List, [], ◌∷◌, map, ℕ, ◌+◌, ◌≤◌, ◌<◌, arith,
  Bool-cases, Result-cases, inl, inr, ltb, leb, count, Result, ok, err, All,
}
use home_bot.Common.Int.{ℤ}
use mathlib.Core.Path.{subst}
use home_bot.Storage.Errors.{StorageError}
use home_bot.Storage.Jobs.{RoutineTrigger, RoutineJob, Queue}
use home_bot.Storage.Jobs.Claim.{
  Row, attempt_limit, u16_max, due_rows, is_active, is_skip, can_run, exhaust, pass_over, start,
  claim_row, claim_rows, claim_next_routine_job,
}
use home_bot.Storage.Jobs.Selected.{at, rows_at, IsSelected, All-IsSelected, due_rows-IsSelected}
use home_bot.Storage.Jobs.Within.{
  capacity, can_run-capacity, IsWithin, map-IsWithin, map-same_at, map-allowed, map-ids,
  exhaust-IsQuiet, pass_over-IsQuiet, start-IsQuiet, start-active, IsQuiet, StartsNone,
}

module _ (owner_id routine_id maximum : ℕ) where
  -- What a round leaves.
  abbrev IsGood :
      List RoutineTrigger → List RoutineJob → Result StorageError (List RoutineJob × Bool) → Type 0
  IsGood triggers jobs (err e) = Unit {0}
  IsGood triggers jobs (ok (jobs', started)) =
      IsWithin owner_id routine_id maximum triggers jobs'
      × ((id : ℕ)
          → rows_at owner_id routine_id maximum id jobs'
            ≡ rows_at owner_id routine_id maximum id jobs)

  start-IsWithin :
      (triggers : List RoutineTrigger) (jobs : List RoutineJob) (id : ℕ) (now_ms : ℤ)
      → IsWithin owner_id routine_id maximum triggers jobs
      → rows_at owner_id routine_id maximum id jobs + count (is_active owner_id routine_id) jobs
        ≤ maximum
      → IsWithin owner_id routine_id maximum triggers (map (start id now_ms) jobs)
  start-IsWithin triggers jobs id now_ms (ids, within, active) room =
      let quiet = start-IsQuiet owner_id routine_id maximum id now_ms in
      (
        (λ other.
            rw (map-ids owner_id routine_id maximum (start id now_ms) other jobs quiet)
              (ids other)),
        map-allowed owner_id routine_id maximum (start id now_ms) triggers jobs quiet within,
        omega (arith, start-active owner_id routine_id maximum id now_ms jobs, room),
      )

  claim_row-IsGood :
      (triggers : List RoutineTrigger) (jobs : List RoutineJob) (owner : ℕ) (now_ms : ℤ) (row : Row)
      → IsWithin owner_id routine_id maximum triggers jobs
      → IsSelected owner_id routine_id maximum owner jobs row
      → IsGood triggers jobs (claim_row jobs owner now_ms row)
  unfolding claim_row
  claim_row-IsGood triggers jobs owner now_ms (job, definition) within (one, cap, mine) =
      let runs = can_run definition.overlap_policy (count (is_active owner job.routine_id) jobs) in
      elim (Bool-cases (ltb u16_max job.attempt_count)) [
        | inl wide ↦ rw (claim_row, wide) tt
        | inr narrow ↦ elim (Bool-cases (leb (attempt_limit definition) job.attempt_count)) [
          | inl spent ↦
              rw (claim_row, narrow, spent)
                (quiet_good (exhaust job.id now_ms)
                  (exhaust-IsQuiet owner_id routine_id maximum job.id now_ms))
          | inr left ↦ elim (Bool-cases runs) [
            | inl free ↦
                rw (claim_row, narrow, left, free)
                  (
                    start-IsWithin triggers jobs job.id now_ms within (room free),
                    λ id.
                        map-same_at owner_id routine_id maximum (start job.id now_ms) id jobs
                          (start-IsQuiet owner_id routine_id maximum job.id now_ms),
                  )
            | inr full ↦ elim (Bool-cases (is_skip definition.overlap_policy)) [
              | inl skips ↦
                  rw (claim_row, narrow, left, full, skips)
                    (quiet_good (pass_over job.id now_ms)
                      (pass_over-IsQuiet owner_id routine_id maximum job.id now_ms))
              | inr waits ↦ rw (claim_row, narrow, left, full, waits) (within, λ id. refl)
            ]
          ]
        ]
      ]
    where
      quiet_good :
          (f : RoutineJob → RoutineJob)
          → IsQuiet owner_id routine_id maximum f × StartsNone owner_id routine_id maximum f
          → IsGood triggers jobs (ok (map f jobs, false))
      quiet_good f (quiet, starts) = (
        map-IsWithin owner_id routine_id maximum f triggers jobs quiet starts within,
        λ id. map-same_at owner_id routine_id maximum f id jobs quiet,
      )

      room :
          can_run definition.overlap_policy (count (is_active owner job.routine_id) jobs) ≡ true
          → rows_at owner_id routine_id maximum job.id jobs
              + count (is_active owner_id routine_id) jobs
            ≤ maximum
      room free = elim (Bool-cases (at owner_id routine_id maximum job)) [
        | inr other ↦ ground (arith, within.2)
        | inl here ↦
            let owner_same : owner ≡ owner_id = sym mine ∙ ground arith in
            let routine_same : job.routine_id ≡ routine_id = ground arith in
            let below : count (is_active owner_id routine_id) jobs
                < capacity definition.overlap_policy =
              subst (λ o. count (is_active o routine_id) jobs < capacity definition.overlap_policy)
                owner_same
                (subst (λ r. count (is_active owner r) jobs < capacity definition.overlap_policy)
                  routine_same
                  (can_run-capacity definition.overlap_policy
                    (count (is_active owner job.routine_id) jobs) free)) in
            ground arith
      ]

  IsGood-after :
      (triggers : List RoutineTrigger) (jobs : List RoutineJob) (jobs' : List RoutineJob)
      (started : Bool) (result : Result StorageError (List RoutineJob × Bool))
      → IsGood triggers jobs result
      → result ≡ ok (jobs', started)
      → IsGood triggers jobs (ok (jobs', started))
  IsGood-after triggers jobs jobs' started result good h = subst (IsGood triggers jobs) h good

  abbrev IsKept :
      List RoutineTrigger → Result StorageError (List RoutineJob × Option RoutineJob) → Type 0
  IsKept triggers (err e) = Unit {0}
  IsKept triggers (ok (jobs', job)) = IsWithin owner_id routine_id maximum triggers jobs'

  claim_rows-IsKept :
      (triggers : List RoutineTrigger) (jobs : List RoutineJob) (owner : ℕ) (now_ms : ℤ)
      (rows : List Row)
      → IsWithin owner_id routine_id maximum triggers jobs
      → All (IsSelected owner_id routine_id maximum owner jobs) rows
      → IsKept triggers (claim_rows jobs owner now_ms rows)
  unfolding claim_rows
  claim_rows-IsKept triggers jobs owner now_ms [] within selected = within
  claim_rows-IsKept triggers jobs owner now_ms (row ∷ rows) within (first, rest) =
      let good = claim_row-IsGood triggers jobs owner now_ms row within first in
      elim (Result-cases (claim_row jobs owner now_ms row)) [
        | inr (e, bad) ↦ rw (claim_rows, bad) tt
        | inl ((jobs', true), done) ↦
            rw (claim_rows, done)
              (IsGood-after triggers jobs jobs' true (claim_row jobs owner now_ms row) good done).0
        | inl ((jobs', false), done) ↦
            let (within', same) =
              IsGood-after triggers jobs jobs' false (claim_row jobs owner now_ms row) good done in
            rw (claim_rows, done)
              (claim_rows-IsKept triggers jobs' owner now_ms rows within'
                (All-IsSelected owner_id routine_id maximum owner jobs jobs' rows same rest))
      ]

  pub claim_next-IsWithin :
      (q : Queue) (owner : ℕ) (now_ms : ℤ)
      → IsWithin owner_id routine_id maximum q.triggers q.jobs
      → let q' = (claim_next_routine_job q owner now_ms).0 in
        (q'.triggers ≡ q.triggers) × IsWithin owner_id routine_id maximum q.triggers q'.jobs
  unfolding claim_next_routine_job
  claim_next-IsWithin q owner now_ms within =
      let kept =
        claim_rows-IsKept q.triggers q.jobs owner now_ms (due_rows q owner now_ms) within
          (due_rows-IsSelected owner_id routine_id maximum q owner now_ms within) in
      elim (Result-cases (claim_rows q.jobs owner now_ms (due_rows q owner now_ms))) [
        | inr (e, bad) ↦ rw (claim_next_routine_job, bad) (refl, within)
        | inl ((jobs, job), done) ↦
            rw (claim_next_routine_job, done) (refl, subst (IsKept q.triggers) done kept)
      ]
