-- ===== src/Providers/Runtime/Cancel.antt =====
-- The calls between `start` and `finish` (crates/homebot-providers/src/runtime.rs).
use home_bot.Common.{
  ℕ, [], refl, List, ◌≢◌, All, arith, ◌∷◌, ◌≡◌, Result, Result-cases, map_err, some, inl, inr, ok,
  Bool-cases, err, ◌==◌, ap, ◌∙◌, ==_iff, Option-cases,
}
use home_bot.Providers.Runtime.Defs.{
  ProviderRuntime, start, resume, register, finish, reserve_operation, run_call, values, provider,
  operation_not_found,
}
use home_bot.Providers.Runtime.Recover.{recover, recover_all, reserve_runs}
use home_bot.Providers.Contracts.{
  ProviderAdapter, ProviderAdapterId, ProviderRun, StartRequest, ResumeRequest, ProviderError,
}
use home_bot.Common.HashMap.{get, get-insert, get-remove, nat_eq, text_keys}
use home_bot.Common.Text.{text_eq_iff}
use home_bot.Providers.Runtime.Routing.{
  run_call-operations, run_call-adapters, begin-missing, begin-taken,
}
use home_bot.Providers.Runtime.Defs

module _ (Json : Type 0) where
  -- A call that changes the runtime.
  pub data RuntimeCall : Type 0 where
    registers : ProviderAdapter Json → RuntimeCall
    starts : (moment : ℕ) → ProviderAdapterId → StartRequest Json → RuntimeCall
    resumes : (moment : ℕ) → ProviderAdapterId → ResumeRequest Json → RuntimeCall
    recovers : (moment : ℕ) → RuntimeCall
    finishes : ℕ → RuntimeCall

module _ {Json : Type 0} where
  abbrev pub apply : ProviderRuntime Json → RuntimeCall Json → ProviderRuntime Json
  apply r (registers a) = (register r a).0
  apply r (starts moment id request) = (start moment r id request).0
  apply r (resumes moment id request) = (resume moment r id request).0
  apply r (recovers moment) = (recover moment r).0
  apply r (finishes operation_id) = finish r operation_id

  -- The runtime after the calls, the first call first.
  abbrev pub apply_all : ProviderRuntime Json → List (RuntimeCall Json) → ProviderRuntime Json
  apply_all r [] = r
  apply_all r (call ∷ calls) = apply_all (apply r call) calls

  -- The call does not finish the operation.
  abbrev pub IsOther : ℕ → RuntimeCall Json → Type 0
  IsOther operation_id (registers a) = Unit {0}
  IsOther operation_id (starts moment id request) = Unit {0}
  IsOther operation_id (resumes moment id request) = Unit {0}
  IsOther operation_id (recovers moment) = Unit {0}
  IsOther operation_id (finishes j) = j ≢ operation_id

  module _ (op : ℕ) (owner : ProviderAdapterId) (a : ProviderAdapter Json) where
    -- The operation is the adapter's, which is registered.
    abbrev Owns : ProviderRuntime Json → Type 0
    Owns r = (get op r.operations ≡ some owner) × (get owner r.adapters ≡ some a)

    register-Owns :
        (r : ProviderRuntime Json) (b : ProviderAdapter Json) → Owns r → Owns (register r b).0
    unfolding register
    register-Owns r b (owned, found) =
        (ground arith, ground (arith, get-insert b.id owner b r.adapters, text_eq_iff b.id owner))

    reserve-Owns :
        (r : ProviderRuntime Json) (j : ℕ) (id : ProviderAdapterId)
        → Owns r
        → Owns (reserve_operation r j id).0
    unfolding reserve_operation
    reserve-Owns r j id (owned, found) =
        (ground (arith, get-insert j op id r.operations), ground arith)

    run_call-Owns :
        (r : ProviderRuntime Json) (id : ProviderAdapterId) (j : ℕ)
        (answer : ProviderAdapter Json → Result ProviderError ProviderRun)
        → Owns r
        → Owns (run_call r id j answer).0
    unfolding run_call
    run_call-Owns r id j answer (owned, found) = elim (Bool-cases (j == op)) [
      | inr differ ↦ (
        run_call-operations r id j op answer ∙ ground arith,
        ap (get owner) (run_call-adapters r id j answer) ∙ found,
      )
      | inl hit ↦
          let taken : get j r.operations ≡ some owner =
            ap (λ i. get i r.operations) ((==_iff j op).0 hit) ∙ owned in
          elim (Option-cases (get id r.adapters)) [
            | inl missing ↦ rw (begin-missing r id j missing) (owned, found)
            | inr (b, known) ↦ rw (begin-taken r id j known taken) (owned, found)
          ]
    ]

    reserve_runs-Owns :
        (r : ProviderRuntime Json) (id : ProviderAdapterId) (runs : List ProviderRun)
        → Owns r
        → Owns (reserve_runs r id runs).0
    unfolding reserve_runs
    reserve_runs-Owns r id [] h = h
    reserve_runs-Owns r id (run ∷ runs) h =
        let once = reserve-Owns r run.operation_id id h in
        elim (Result-cases (reserve_operation r run.operation_id id).1) [
          | inl (u, p) ↦
              rw (reserve_runs, p)
                (reserve_runs-Owns (reserve_operation r run.operation_id id).0 id runs once)
          | inr (e, p) ↦ rw (reserve_runs, p) once
        ]

    recover_all-Owns :
        (moment : ℕ) (r : ProviderRuntime Json) (as' : List (ProviderAdapter Json))
        → Owns r
        → Owns (recover_all moment r as').0
    unfolding recover_all
    recover_all-Owns moment r [] h = h
    recover_all-Owns moment r (b ∷ as') h = elim (Result-cases (b.recover moment)) [
      | inr (e, p) ↦ rw (recover_all, p) h
      | inl (runs, p) ↦
          let once = reserve_runs-Owns r b.id runs h in
          elim (Result-cases (reserve_runs r b.id runs).1) [
            | inl (u, q) ↦
                rw (recover_all, p, q)
                  (recover_all-Owns moment (reserve_runs r b.id runs).0 as' once)
            | inr (e, q) ↦ rw (recover_all, p, q) once
          ]
    ]

    apply-Owns :
        (r : ProviderRuntime Json) (call : RuntimeCall Json)
        → IsOther op call
        → Owns r
        → Owns (apply r call)
    unfolding start resume recover finish
    apply-Owns r (registers b) other h = register-Owns r b h
    apply-Owns r (starts moment id request) other h =
        run_call-Owns r id request.operation_id (λ b. b.start moment request) h
    apply-Owns r (resumes moment id request) other h =
        run_call-Owns r id request.operation_id (λ b. b.resume moment request) h
    apply-Owns r (recovers moment) other h = recover_all-Owns moment r (values r.adapters) h
    apply-Owns r (finishes j) other (owned, found) =
        (ground (arith, get-remove j op r.operations, other), found)

    apply_all-Owns :
        (r : ProviderRuntime Json) (calls : List (RuntimeCall Json))
        → All (IsOther op) calls
        → Owns r
        → Owns (apply_all r calls)
    apply_all-Owns r [] others h = h
    apply_all-Owns r (call ∷ calls) (other, others) h =
        apply_all-Owns (apply r call) calls others (apply-Owns r call other h)

    cancel-Owns :
        (t : ProviderRuntime Json) (moment : ℕ)
        → Owns t
        → Defs.cancel moment t op ≡ map_err provider (a.cancel moment op)
    unfolding Defs.cancel
    cancel-Owns t moment (owned, found) = rw owned (rw found)

  -- A run that `start` returned is the one that `cancel` reaches until `finish`: after any sequence of
  -- calls of `register`, `start`, `resume`, `recover` and `finish`, each made once the one before has
  -- returned and none of them a `finish` of the operation, it asks the adapter that started the run,
  -- also where the same operation is started, resumed or recovered again; and after `finish` the
  -- operation is unknown.
  pub start-cancel-finish :
      (r : ProviderRuntime Json) (adapter_id : ProviderAdapterId) (request : StartRequest Json)
      (started_at cancelled_at : ℕ) (calls : List (RuntimeCall Json)) {a : ProviderAdapter Json}
      {run : ProviderRun}
      → get adapter_id r.adapters ≡ some a
      → (start started_at r adapter_id request).1 ≡ ok run
      → All (IsOther request.operation_id) calls
      → let t = apply_all (start started_at r adapter_id request).0 calls in
        (Defs.cancel cancelled_at t request.operation_id
          ≡ map_err provider (a.cancel cancelled_at request.operation_id))
        × (Defs.cancel cancelled_at (finish t request.operation_id) request.operation_id
            ≡ err (operation_not_found request.operation_id))
  unfolding Defs.cancel finish start
  start-cancel-finish r adapter_id request started_at cancelled_at calls {a} found done others =
      let op = request.operation_id in
      let answer = λ (b : ProviderAdapter Json). b.start started_at request in
      let owned : get op (run_call r adapter_id op answer).0.operations ≡ some adapter_id =
        ground (arith, run_call-operations r adapter_id op op answer) in
      let there = ap (get adapter_id) (run_call-adapters r adapter_id op answer) ∙ found in
      let t = apply_all (run_call r adapter_id op answer).0 calls in
      (
        cancel-Owns op adapter_id a t cancelled_at
            (apply_all-Owns op adapter_id a _ calls others (owned, there)),
        rw (get-remove op op t.operations) (rw ((==_iff op op).1 refl)),
      )
