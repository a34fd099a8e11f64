-- ===== src/Storage/Jobs/Selected.antt =====
-- The jobs that `claim_next_routine_job` (crates/homebot-storage/src/lib.rs) selects.
use home_bot.Common.{
  ◌≡◌, Bool, not, ◌&&◌, List, [], ◌∷◌, ℕ, zero, suc, ◌+◌, ◌≤◌, arith, Bool-cases, Option-cases, inl,
  inr, ◌==◌, count, filterb, take, if◌then◌else◌, All,
}
use home_bot.Common.Int.{ℤ}
use home_bot.Storage.Jobs.{RoutineTrigger, RoutineJob, Queue}
use home_bot.Storage.Jobs.Claim.{
  Row, definition_of, joined, insert_row, ordered, due_rows, is_due, comes_first,
}
use home_bot.Storage.Jobs.Within.{capacity, is_at, allowed, IsWithin, same_at}

module _ (owner_id routine_id maximum : ℕ) where
  abbrev pub at : RoutineJob → Bool
  at = is_at owner_id routine_id maximum

  abbrev pub rows_at : ℕ → List RoutineJob → ℕ
  rows_at id jobs = count (same_at owner_id routine_id maximum id) jobs

  -- A job that was selected: its identifier is that of no job of the routine but itself, and its
  -- trigger allows as many as `maximum` at most where it is of the routine.
  abbrev pub IsSelected : ℕ → List RoutineJob → Row → Type 0
  IsSelected owner jobs (job, definition) =
      (rows_at job.id jobs ≤ (if at job then 1 else 0))
      × ((if at job then capacity definition.overlap_policy else 0) ≤ maximum)
      × (job.owner_id ≡ owner)

  pub All-IsSelected :
      (owner : ℕ) (jobs jobs' : List RoutineJob) (rows : List Row)
      → ((id : ℕ) → rows_at id jobs' ≡ rows_at id jobs)
      → All (IsSelected owner jobs) rows
      → All (IsSelected owner jobs') rows
  All-IsSelected owner jobs jobs' [] same selected = tt
  All-IsSelected owner jobs jobs' ((job, definition) ∷ rows) same ((one, cap, mine), rest) =
      ((omega (arith, same job.id, one), cap, mine), All-IsSelected owner jobs jobs' rows same rest)

  -- A job that is not of the routine is one of the rows with its identifier that are not.
  abbrev elsewhere : ℕ → RoutineJob → Bool
  elsewhere id j = (j.id == id) && not (at j)

  abbrev IsMember : List RoutineJob → RoutineJob → Type 0
  IsMember jobs job = (if at job then 0 else 1) ≤ count (elsewhere job.id) jobs

  All_member :
      (x : RoutineJob) (jobs members : List RoutineJob)
      → All (IsMember jobs) members
      → All (IsMember (x ∷ jobs)) members
  All_member x jobs [] all_in = tt
  All_member x jobs (job ∷ members) (first, rest) = (ground arith, All_member x jobs members rest)

  members : (jobs : List RoutineJob) → All (IsMember jobs) jobs
  members [] = tt
  members (job ∷ jobs) = (ground arith, All_member job jobs jobs (members jobs))

  apart :
      (id : ℕ) (jobs : List RoutineJob)
      → rows_at id jobs + count (elsewhere id) jobs ≡ count (λ j. j.id == id) jobs
  apart id [] = ground arith
  apart id (j ∷ jobs) = ground (arith, apart id jobs)

  -- What is known of every job that is due.
  abbrev IsOurs : ℕ → List RoutineTrigger → List RoutineJob → RoutineJob → Type 0
  IsOurs owner triggers jobs job =
      (rows_at job.id jobs ≤ (if at job then 1 else 0))
      × (allowed owner_id routine_id maximum triggers job ≤ maximum)
      × (job.owner_id ≡ owner)

  filterb-IsOurs :
      (owner : ℕ) (now_ms : ℤ) (triggers : List RoutineTrigger) (jobs members : List RoutineJob)
      → ((id : ℕ) → count (λ j. j.id == id) jobs ≤ 1)
      → All (IsMember jobs) members
      → All (λ j. allowed owner_id routine_id maximum triggers j ≤ maximum) members
      → All (IsOurs owner triggers jobs) (filterb (is_due owner now_ms) members)
  filterb-IsOurs owner now_ms triggers jobs [] ids all_in within = tt
  filterb-IsOurs owner now_ms triggers jobs (job ∷ members) ids (member, all_in) (cap, within) =
      let rest = filterb-IsOurs owner now_ms triggers jobs members ids all_in within in
      elim (Bool-cases (is_due owner now_ms job)) [
        | inl due ↦
            rw due ((ground (arith, ids job.id, apart job.id jobs), cap, ground arith), rest)
        | inr early ↦ rw early rest
      ]

  joined-IsSelected :
      (owner : ℕ) (triggers : List RoutineTrigger) (jobs members : List RoutineJob)
      → All (IsOurs owner triggers jobs) members
      → All (IsSelected owner jobs) (joined triggers members)
  unfolding joined
  joined-IsSelected owner triggers jobs [] ours = tt
  joined-IsSelected owner triggers jobs (job ∷ members) ((one, cap, mine), ours) =
      let rest = joined-IsSelected owner triggers jobs members ours in
      elim (Option-cases (definition_of triggers job)) [
        | inl absent ↦ rw (joined, absent) rest
        | inr (definition, present) ↦
            rw (joined, present) ((one, (rw (allowed, present) at cap), mine), rest)
      ]

  insert_row-All :
      (P : Row → Type 0) (row : Row) (rows : List Row)
      → P row
      → All P rows
      → All P (insert_row row rows)
  unfolding insert_row
  insert_row-All P row [] first rest = (first, tt)
  insert_row-All P row (s ∷ rows) first (second, rest) = elim (Bool-cases (comes_first row.0 s.0)) [
    | inl front ↦ rw front (first, (second, rest))
    | inr behind ↦ rw behind (second, insert_row-All P row rows first rest)
  ]

  ordered-All : (P : Row → Type 0) (rows : List Row) → All P rows → All P (ordered rows)
  unfolding ordered
  ordered-All P [] all_rows = tt
  ordered-All P (row ∷ rows) (first, rest) =
      insert_row-All P row (ordered rows) first (ordered-All P rows rest)

  take-All : (P : Row → Type 0) (k : ℕ) (rows : List Row) → All P rows → All P (take k rows)
  take-All P zero rows all_rows = tt
  take-All P (suc k) [] all_rows = tt
  take-All P (suc k) (row ∷ rows) (first, rest) = (first, take-All P k rows rest)

  pub due_rows-IsSelected :
      (q : Queue) (owner : ℕ) (now_ms : ℤ)
      → IsWithin owner_id routine_id maximum q.triggers q.jobs
      → All (IsSelected owner q.jobs) (due_rows q owner now_ms)
  unfolding due_rows
  due_rows-IsSelected q owner now_ms (ids, within, active) =
      take-All (IsSelected owner q.jobs) 100 _ (
        ordered-All (IsSelected owner q.jobs) _ (
          joined-IsSelected owner q.triggers q.jobs _
            (filterb-IsOurs owner now_ms q.triggers q.jobs q.jobs ids (members q.jobs) within)))
