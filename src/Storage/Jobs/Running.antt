-- ===== src/Storage/Jobs/Running.antt =====
-- The jobs of a routine that run after any calls (crates/homebot-storage/src/lib.rs).
use home_bot.Common.{
  ◌≡◌, refl, sym, false, ◌&&◌, ◌||◌, some, List, [], ◌∷◌, ◌++◌, ℕ, ◌≤◌, arith, Bool-cases,
  Option-cases, inl, inr, ◌==◌, ltb, leb, count, count-append, any, find, All-append,
}
use home_bot.Common.Int.{ℤ}
use home_bot.Common.Text.{Text, text_eq}
use mathlib.Core.Path.{subst}
use home_bot.Storage.Jobs.{
  RoutineTrigger, RoutineJob, Queue, is_running, is_waiting, enqueue_routine_job, job_refused,
  failed,
}
use home_bot.Storage.Jobs.Claim.{
  claim_next_routine_job, is_active, definition_of, attempt_limit, u16_max,
}
use home_bot.Storage.Jobs.Change.{
  delivered_job, retry_or_fail_routine_job, cancel_routine_job, recover_interrupted_routine_jobs,
  cancel, recover, is_job,
}
use home_bot.Storage.Jobs.Within.{allowed, IsWithin}
use home_bot.Storage.Jobs.Overlap.{claim_next-IsWithin}
use home_bot.Storage.Jobs.Steps.{
  Step, deliver, claim, finish_job, retry_or_fail, cancel_job, recover_jobs, step, run, largest,
  largest-find, fresh_id, Kept, map-Kept, finish-Kept, delay-Quiet, cancel-Quiet, recover-Quiet,
}

module _ (owner_id routine_id maximum : ℕ) where
  retry-Kept :
      (triggers : List RoutineTrigger) (q : Queue) (owner job_id : ℕ) (message : Text) (now_ms : ℤ)
      → Kept owner_id routine_id maximum triggers q
      → Kept owner_id routine_id maximum triggers
          (retry_or_fail_routine_job q owner job_id message now_ms).0
  unfolding retry_or_fail_routine_job
  retry-Kept triggers q owner job_id message now_ms kept =
      elim (Option-cases (find (λ j. is_job owner job_id j && is_running j.status) q.jobs)) [
        | inl absent ↦ rw (retry_or_fail_routine_job, absent) kept
        | inr (job, present) ↦ elim (Option-cases (definition_of q.triggers job)) [
          | inl orphan ↦ rw (retry_or_fail_routine_job, present, orphan) kept
          | inr (definition, defined) ↦ elim (Bool-cases (ltb u16_max job.attempt_count)) [
            | inl wide ↦ rw (retry_or_fail_routine_job, present, defined, wide) kept
            | inr narrow ↦ elim (Bool-cases (leb (attempt_limit definition) job.attempt_count)) [
              | inl spent ↦
                  rw (retry_or_fail_routine_job, present, defined, narrow, spent)
                    (finish-Kept owner_id routine_id maximum triggers q owner job_id failed
                      (some message) now_ms kept)
              | inr left ↦
                  rw (retry_or_fail_routine_job, present, defined, narrow, left)
                    (map-Kept owner_id routine_id maximum triggers q _
                      (delay-Quiet owner_id routine_id maximum owner job_id message _) kept)
            ]
          ]
        ]
      ]

  cancel-Kept :
      (triggers : List RoutineTrigger) (q : Queue) (owner job_id : ℕ) (now_ms : ℤ)
      → Kept owner_id routine_id maximum triggers q
      → Kept owner_id routine_id maximum triggers (cancel_routine_job q owner job_id now_ms).0
  unfolding cancel_routine_job
  cancel-Kept triggers q owner job_id now_ms kept =
      elim (Bool-cases
        (any (λ j. is_job owner job_id j && (is_waiting j.status || is_running j.status)) q.jobs)) [
          | inr absent ↦ rw (cancel_routine_job, absent) kept
          | inl present ↦
              rw (cancel_routine_job, present)
                (map-Kept owner_id routine_id maximum triggers q (cancel owner job_id now_ms)
                  (cancel-Quiet owner_id routine_id maximum owner job_id now_ms) kept)
        ]

  append-IsWithin :
      (triggers : List RoutineTrigger) (jobs : List RoutineJob) (job : RoutineJob)
      → any (λ j. j.id == job.id) jobs ≡ false
      → is_running job.status ≡ false
      → allowed owner_id routine_id maximum triggers job ≤ maximum
      → IsWithin owner_id routine_id maximum triggers jobs
      → IsWithin owner_id routine_id maximum triggers (jobs ++ job ∷ [])
  append-IsWithin triggers jobs job new idle cap (ids, within, active) = (
    (λ id.
        ground (
          arith,
          count-append (λ j. j.id == id) jobs (job ∷ []),
          fresh_id job.id jobs new,
          ids id,
        )),
    All-append _ jobs _ within (cap, tt),
    ground (arith, count-append (is_active owner_id routine_id) jobs (job ∷ []), active),
  )

  enqueue-Kept :
      (triggers : List RoutineTrigger) (q : Queue) (job : RoutineJob)
      → is_running job.status ≡ false
      → allowed owner_id routine_id maximum triggers job ≤ maximum
      → Kept owner_id routine_id maximum triggers q
      → Kept owner_id routine_id maximum triggers (enqueue_routine_job q job).0
  unfolding enqueue_routine_job job_refused
  enqueue-Kept triggers q job idle cap (same, within) =
      elim (Bool-cases (
        any (λ d. (d.trigger_id == job.trigger_id) && text_eq d.delivery_key job.delivery_key)
          q.deliveries)) [
            | inl known ↦ rw (enqueue_routine_job, known) (same, within)
            | inr first ↦ elim (Bool-cases (job_refused q job)) [
              | inl rejected ↦ rw (enqueue_routine_job, first, rejected) (same, within)
              | inr new ↦
                  rw (enqueue_routine_job, first, new)
                    (same, append-IsWithin triggers q.jobs job (ground arith) idle cap within)
            ]
          ]

  delivered-allowed :
      (triggers : List RoutineTrigger) (trigger_id id owner version_id : ℕ)
      (key source inputs : Text) (scheduled_for_ms created : ℤ) (t : RoutineTrigger)
      → find (λ u. u.id == trigger_id) triggers ≡ some t
      → largest routine_id triggers ≤ maximum
      → allowed owner_id routine_id maximum triggers
          (delivered_job t id owner version_id key source inputs scheduled_for_ms created)
        ≤ maximum
  unfolding delivered_job
  delivered-allowed triggers trigger_id id owner version_id key source inputs scheduled_for_ms
        created t found most =
      let (same, below) = largest-find trigger_id routine_id triggers t found in
      let present : find (λ u. u.id == t.id) triggers ≡ some t =
        subst (λ d. find (λ u. u.id == d) triggers ≡ some t) (sym same) found in
      rw (allowed, definition_of, present) (ground arith)

  deliver-Kept :
      (triggers : List RoutineTrigger) (q : Queue) (trigger_id id owner version_id : ℕ)
      (key source inputs : Text) (scheduled created : ℤ)
      → largest routine_id triggers ≤ maximum
      → Kept owner_id routine_id maximum triggers q
      → Kept owner_id routine_id maximum triggers
          (step q (deliver trigger_id id owner version_id key source inputs scheduled created))
  unfolding step delivered_job
  deliver-Kept triggers q trigger_id id owner version_id key source inputs scheduled created most
        kept =
      elim (Option-cases (find (λ t. t.id == trigger_id) q.triggers)) [
        | inl absent ↦ rw (step, absent) kept
        | inr (t, present) ↦
            rw (step, present)
              (enqueue-Kept triggers q
                (delivered_job t id owner version_id key source inputs scheduled created) refl
                (delivered-allowed triggers trigger_id id owner version_id key source inputs
                  scheduled created t
                  (subst (λ ts. find (λ u. u.id == trigger_id) ts ≡ some t) kept.0 present) most)
                kept)
      ]

  run-Kept :
      (triggers : List RoutineTrigger) (steps : List Step)
      → largest routine_id triggers ≤ maximum
      → Kept owner_id routine_id maximum triggers (run triggers steps)
  unfolding run step delivered_job recover_interrupted_routine_jobs
  run-Kept triggers [] most = (refl, ((λ id. ground arith), tt, ground arith))
  run-Kept triggers
        (deliver trigger_id id owner version_id key source inputs scheduled created ∷ steps) most =
      deliver-Kept triggers (run triggers steps) trigger_id id owner version_id key source inputs
        scheduled created most (run-Kept triggers steps most)
  run-Kept triggers (claim owner now_ms ∷ steps) most =
      let (same, within) = run-Kept triggers steps most in
      subst
        (λ ts.
          Kept owner_id routine_id maximum ts
            (claim_next_routine_job (run triggers steps) owner now_ms).0)
        same
        (claim_next-IsWithin owner_id routine_id maximum (run triggers steps) owner now_ms (
          subst (λ ts. IsWithin owner_id routine_id maximum ts (run triggers steps).jobs) (sym same)
            within))
  run-Kept triggers (finish_job owner job_id status message now_ms ∷ steps) most =
      finish-Kept owner_id routine_id maximum triggers (run triggers steps) owner job_id status
        message now_ms (run-Kept triggers steps most)
  run-Kept triggers (retry_or_fail owner job_id message now_ms ∷ steps) most =
      retry-Kept triggers (run triggers steps) owner job_id message now_ms
        (run-Kept triggers steps most)
  run-Kept triggers (cancel_job owner job_id now_ms ∷ steps) most =
      cancel-Kept triggers (run triggers steps) owner job_id now_ms (run-Kept triggers steps most)
  run-Kept triggers (recover_jobs owner now_ms ∷ steps) most =
      map-Kept owner_id routine_id maximum triggers (run triggers steps) (recover owner now_ms)
        (recover-Quiet owner_id routine_id maximum owner now_ms) (run-Kept triggers steps most)

-- A queue has some triggers and no jobs at first. After any calls that deliver, claim, finish, retry,
-- cancel and recover jobs, no more jobs of an owner's routine run at a time than the trigger of the
-- routine that allows most does: one, where all its triggers skip or queue what overlaps.
pub running-capacity :
    (triggers : List RoutineTrigger) (steps : List Step) (owner_id routine_id : ℕ)
    → count (is_active owner_id routine_id) (run triggers steps).jobs ≤ largest routine_id triggers
running-capacity triggers steps owner_id routine_id =
    (run-Kept owner_id routine_id (largest routine_id triggers) triggers steps (omega arith)).1.2
