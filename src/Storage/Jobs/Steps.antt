-- ===== src/Storage/Jobs/Steps.antt =====
-- Runs of the queue of routine jobs (crates/homebot-storage/src/lib.rs), each call a step, and the
-- jobs of a routine that run after them.
use home_bot.Common.{
  ◌≡◌, refl, true, false, ◌&&◌, Option, none, some, List, [], ◌∷◌, map, ℕ, ◌≤◌, arith, Bool-cases,
  inl, inr, ◌==◌, ltb, count, any, find, if◌then◌else◌,
}
use home_bot.Common.Int.{ℤ}
use home_bot.Common.Text.{Text}
use mathlib.Core.Path.{subst}
use mathlib.Core.Option.{none-ne-some, some-injective}
use home_bot.Storage.Jobs.{
  RoutineTrigger, RoutineJob, Queue, JobStatus, is_running, enqueue_routine_job,
}
use home_bot.Storage.Jobs.Claim.{claim_next_routine_job}
use home_bot.Storage.Jobs.Change.{
  delivered_job, finish_routine_job, retry_or_fail_routine_job, cancel_routine_job,
  recover_interrupted_routine_jobs, finish, delay, cancel, recover, is_job, is_terminal,
}
use home_bot.Storage.Jobs.Within.{capacity, IsWithin, IsQuiet, StartsNone, map-IsWithin}

pub data Step : Type 0 where
  deliver :
      (trigger_id id owner_id version_id : ℕ) (delivery_key source inputs : Text)
      (scheduled_for_ms created : ℤ)
      → Step
  claim : (owner_id : ℕ) → ℤ → Step
  finish_job : (owner_id job_id : ℕ) → JobStatus → Option Text → ℤ → Step
  retry_or_fail : (owner_id job_id : ℕ) → Text → ℤ → Step
  cancel_job : (owner_id job_id : ℕ) → ℤ → Step
  recover_jobs : (owner_id : ℕ) → ℤ → Step

-- A delivery is for a trigger that exists.
unfoldable pub step : Queue → Step → Queue
step q (deliver trigger_id id owner_id version_id key source inputs scheduled_for_ms created) =
    elim (find (λ t. t.id == trigger_id) q.triggers) [
      | none ↦ q
      | some t ↦
          (enqueue_routine_job q
            (delivered_job t id owner_id version_id key source inputs scheduled_for_ms created)).0
    ]
step q (claim owner_id now_ms) = (claim_next_routine_job q owner_id now_ms).0
step q (finish_job owner_id job_id status message now_ms) =
    (finish_routine_job q owner_id job_id status message now_ms).0
step q (retry_or_fail owner_id job_id message now_ms) =
    (retry_or_fail_routine_job q owner_id job_id message now_ms).0
step q (cancel_job owner_id job_id now_ms) = (cancel_routine_job q owner_id job_id now_ms).0
step q (recover_jobs owner_id now_ms) = (recover_interrupted_routine_jobs q owner_id now_ms).0

-- The queue of some triggers after some steps, the last step first.
unfoldable pub run : List RoutineTrigger → List Step → Queue
unfolding step
run triggers [] = record { triggers = triggers; jobs = []; deliveries = [] }
run triggers (next ∷ steps) = step (run triggers steps) next

-- The most that a trigger of the routine allows.
abbrev pub largest : ℕ → List RoutineTrigger → ℕ
largest routine_id [] = 0
largest routine_id (t ∷ triggers) =
    let rest = largest routine_id triggers in
    if (t.routine_id == routine_id) && ltb rest (capacity t.definition.overlap_policy)
    then capacity t.definition.overlap_policy
    else rest

pub largest-find :
    (trigger_id routine_id : ℕ) (triggers : List RoutineTrigger) (t : RoutineTrigger)
    → find (λ u. u.id == trigger_id) triggers ≡ some t
    → (t.id ≡ trigger_id)
      × ((if t.routine_id == routine_id then capacity t.definition.overlap_policy else 0)
          ≤ largest routine_id triggers)
largest-find trigger_id routine_id [] t h = absurd (none-ne-some t h)
largest-find trigger_id routine_id (u ∷ triggers) t h = elim (Bool-cases (u.id == trigger_id)) [
  | inl hit ↦
      subst
        (λ v.
          (v.id ≡ trigger_id)
          × ((if v.routine_id == routine_id then capacity v.definition.overlap_policy else 0)
              ≤ largest routine_id (u ∷ triggers)))
        (some-injective u t (rw hit at h)) (ground arith, ground arith)
  | inr miss ↦
      let (same, below) = largest-find trigger_id routine_id triggers t (rw miss at h) in
      (same, ground arith)
]

pub fresh_id :
    (id : ℕ) (jobs : List RoutineJob)
    → any (λ j. j.id == id) jobs ≡ false
    → count (λ j. j.id == id) jobs ≡ 0
fresh_id id [] h = refl
fresh_id id (j ∷ jobs) h = ground (arith, fresh_id id jobs)

module _ (owner_id routine_id maximum : ℕ) where
  abbrev pub Kept : List RoutineTrigger → Queue → Type 0
  Kept triggers q = (q.triggers ≡ triggers) × IsWithin owner_id routine_id maximum triggers q.jobs

  abbrev pub Quiet : (RoutineJob → RoutineJob) → Type 0
  Quiet f = IsQuiet owner_id routine_id maximum f × StartsNone owner_id routine_id maximum f

  pub map-Kept :
      (triggers : List RoutineTrigger) (q : Queue) (f : RoutineJob → RoutineJob)
      → Quiet f
      → Kept triggers q
      → Kept triggers (record q { jobs = map f q.jobs })
  map-Kept triggers q f (quiet, starts) (same, within) =
      (same, map-IsWithin owner_id routine_id maximum f triggers q.jobs quiet starts within)

  finish-Quiet :
      (owner job_id : ℕ) (status : JobStatus) (message : Option Text) (now_ms : ℤ)
      → is_running status ≡ false
      → Quiet (finish owner job_id status message now_ms)
  unfolding finish
  finish-Quiet owner job_id status message now_ms over =
      ((λ j. (ground arith, ground arith, ground arith, ground arith)), λ j h. ground arith)

  pub delay-Quiet :
      (owner job_id : ℕ) (message : Text) (next_ms : ℤ) → Quiet (delay owner job_id message next_ms)
  unfolding delay
  delay-Quiet owner job_id message next_ms =
      ((λ j. (ground arith, ground arith, ground arith, ground arith)), λ j h. ground arith)

  pub cancel-Quiet : (owner job_id : ℕ) (now_ms : ℤ) → Quiet (cancel owner job_id now_ms)
  unfolding cancel
  cancel-Quiet owner job_id now_ms =
      ((λ j. (ground arith, ground arith, ground arith, ground arith)), λ j h. ground arith)

  pub recover-Quiet : (owner : ℕ) (now_ms : ℤ) → Quiet (recover owner now_ms)
  unfolding recover
  recover-Quiet owner now_ms =
      ((λ j. (ground arith, ground arith, ground arith, ground arith)), λ j h. ground arith)

  terminal_running : (status : JobStatus) → is_terminal status ≡ true → is_running status ≡ false
  terminal_running status h = ground arith

  pub finish-Kept :
      (triggers : List RoutineTrigger) (q : Queue) (owner job_id : ℕ) (status : JobStatus)
      (message : Option Text) (now_ms : ℤ)
      → Kept triggers q
      → Kept triggers (finish_routine_job q owner job_id status message now_ms).0
  unfolding finish_routine_job
  finish-Kept triggers q owner job_id status message now_ms kept =
      elim (Bool-cases (is_terminal status)) [
        | inr open_status ↦ rw (finish_routine_job, open_status) kept
        | inl terminal ↦
            elim (Bool-cases (any (λ j. is_job owner job_id j && is_running j.status) q.jobs)) [
              | inr absent ↦ rw (finish_routine_job, terminal, absent) kept
              | inl present ↦
                  rw (finish_routine_job, terminal, present)
                    (map-Kept triggers q (finish owner job_id status message now_ms)
                      (finish-Quiet owner job_id status message now_ms
                        (terminal_running status terminal))
                      kept)
            ]
      ]
