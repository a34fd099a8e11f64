-- ===== src/Providers/Runtime/Routing.antt =====
-- The table of operations under single calls (crates/homebot-providers/src/runtime.rs).
use home_bot.Common.{
  ◌≡◌, refl, inl, inr, ◌&&◌, Option, none, some, arith, ℕ, ok, err, Result, if◌then◌else◌,
  Option-cases, ◌==◌, is_ok,
}
use home_bot.Providers.Runtime.Defs.{
  ProviderRuntime, ProviderRuntimeError, run_call, settle, start, begin, resume, reserve_operation,
  adapter_not_found, duplicate_operation,
}
use home_bot.Providers.Contracts.{
  ProviderAdapterId, ProviderError, ProviderRun, StartRequest, ProviderAdapter, ResumeRequest,
}
use home_bot.Common.HashMap.{get, insert, get-insert, get-remove, nat_eq, text_keys}

module _ {Json : Type 0} (r : ProviderRuntime Json) (adapter_id : ProviderAdapterId) where
  -- What a call leaves in the table: a new entry exactly where it returns a run.
  abbrev after_call : Result ProviderRuntimeError ProviderRun → ℕ → ℕ → Option ProviderAdapterId
  after_call result operation_id j =
      if is_ok result && (operation_id == j) then some adapter_id else get j r.operations

  get-settle :
      (operation_id j : ℕ) (answer : Result ProviderError ProviderRun)
      → get operation_id r.operations ≡ none
      → let (r', result) =
          settle
            (record r { operations = insert operation_id adapter_id r.operations })
            operation_id
            answer in
        get j r'.operations ≡ after_call result operation_id j
  unfolding settle
  get-settle operation_id j (err e) h = ground (
    arith,
    get-insert operation_id j adapter_id r.operations,
    get-remove operation_id j (insert operation_id adapter_id r.operations),
  )
  get-settle operation_id j (ok run) h = ground (
    arith,
    get-insert operation_id j adapter_id r.operations,
    get-remove operation_id j (insert operation_id adapter_id r.operations),
  )

  pub begin-missing :
      (operation_id : ℕ)
      → get adapter_id r.adapters ≡ none
      → begin r adapter_id operation_id ≡ (r, err (adapter_not_found adapter_id))
  unfolding begin
  begin-missing operation_id missing = rw (missing, begin)

  pub begin-taken :
      (operation_id : ℕ) {a : ProviderAdapter Json} {other : ProviderAdapterId}
      → get adapter_id r.adapters ≡ some a
      → get operation_id r.operations ≡ some other
      → begin r adapter_id operation_id ≡ (r, err (duplicate_operation operation_id))
  unfolding begin reserve_operation
  begin-taken operation_id found taken = ground arith

  pub begin-free :
      (operation_id : ℕ) {a : ProviderAdapter Json}
      → get adapter_id r.adapters ≡ some a
      → get operation_id r.operations ≡ none
      → begin r adapter_id operation_id
        ≡ (record r { operations = insert operation_id adapter_id r.operations }, ok a)
  unfolding begin reserve_operation
  begin-free operation_id found free = ground arith

  pub run_call-operations :
      (operation_id j : ℕ) (answer : ProviderAdapter Json → Result ProviderError ProviderRun)
      → let (r', result) = run_call r adapter_id operation_id answer in
        get j r'.operations ≡ after_call result operation_id j
  unfolding run_call
  run_call-operations operation_id j answer = elim (Option-cases (get adapter_id r.adapters)) [
    | inl missing ↦ rw (begin-missing operation_id missing)
    | inr (a, found) ↦ elim (Option-cases (get operation_id r.operations)) [
      | inl free ↦
          rw (begin-free operation_id found free) (get-settle operation_id j (answer a) free)
      | inr (other, taken) ↦ rw (begin-taken operation_id found taken)
    ]
  ]

  -- A call of `start` or `resume` that returns a run enters its operation under its adapter; one that
  -- fails, for an unknown adapter, an operation that is active, an error of the adapter or a run of
  -- another operation, leaves the entry of every operation as it was.
  pub start_resume-operations :
      (moment : ℕ) (request : StartRequest Json) (again : ResumeRequest Json) (j : ℕ)
      → (get j (start moment r adapter_id request).0.operations
          ≡ after_call (start moment r adapter_id request).1 request.operation_id j)
        × (get j (resume moment r adapter_id again).0.operations
            ≡ after_call (resume moment r adapter_id again).1 again.operation_id j)
  unfolding start resume
  start_resume-operations moment request again j = (
    run_call-operations request.operation_id j (λ a. a.start moment request),
    run_call-operations again.operation_id j (λ a. a.resume moment again),
  )

  settle-adapters :
      (t : ProviderRuntime Json) (operation_id : ℕ) (answer : Result ProviderError ProviderRun)
      → (settle t operation_id answer).0.adapters ≡ t.adapters
  unfolding settle
  settle-adapters t operation_id (ok run) = ground arith
  settle-adapters t operation_id (err e) = refl

  pub run_call-adapters :
      (operation_id : ℕ) (answer : ProviderAdapter Json → Result ProviderError ProviderRun)
      → (run_call r adapter_id operation_id answer).0.adapters ≡ r.adapters
  unfolding run_call
  run_call-adapters operation_id answer = elim (Option-cases (get adapter_id r.adapters)) [
    | inl missing ↦ rw (begin-missing operation_id missing)
    | inr (a, found) ↦ elim (Option-cases (get operation_id r.operations)) [
      | inl free ↦
          rw (begin-free operation_id found free) (settle-adapters _ operation_id (answer a))
      | inr (other, taken) ↦ rw (begin-taken operation_id found taken)
    ]
  ]
