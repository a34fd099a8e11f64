-- ===== src/Providers/Runtime/Defs.antt =====
-- crates/homebot-providers/src/runtime.rs: the registry of adapters and the table of operations.
-- A method is a function from the runtime to the runtime and its result; one that asks an adapter
-- takes the moment at which it is called.
use home_bot.Common.{
  ℕ, Bool, true, false, none, some, List, [], ◌∷◌, map, ◌==◌, leb, if◌then◌else◌, Result, ok, err,
  map_err, ok_or, ◌>>=◌,
}
use home_bot.Common.Text.{Text}
use home_bot.Common.HashMap.{HashMap, nat_eq, text_keys, get, insert, remove, contains_key}
use home_bot.Providers.Contracts.{
  ProviderAdapterId, ProviderAdapter, ProviderDescriptor, ProviderHealth, ProviderModel,
  ProviderError, ProviderRun, ProviderToolResult, StartRequest, ResumeRequest, CompactRequest,
  ApprovalDecision,
}

pub data ProviderRuntimeError : Type 0 where
  duplicate_adapter : ProviderAdapterId → ProviderRuntimeError
  adapter_not_found : ProviderAdapterId → ProviderRuntimeError
  duplicate_operation : ℕ → ProviderRuntimeError
  operation_not_found : ℕ → ProviderRuntimeError
  operation_mismatch : ProviderRuntimeError
  provider : ProviderError → ProviderRuntimeError

-- `as_str().cmp`: the bytes of UTF-8 order texts as their code points do.
unfoldable pub text_le : Text → Text → Bool
text_le [] t = true
text_le (a ∷ s) [] = false
text_le (a ∷ s) (b ∷ t) = let rest = text_le s t in if a == b then rest else leb a b

-- `sort_by` and `sort_by_key`, which are stable.
module _ {A : Type 0} (le : A → A → Bool) where
  unfoldable pub insert_sorted : A → List A → List A
  insert_sorted a [] = a ∷ []
  insert_sorted a (b ∷ bs) = if le a b then a ∷ b ∷ bs else b ∷ insert_sorted a bs

  unfoldable pub sort : List A → List A
  unfolding insert_sorted
  sort [] = []
  sort (a ∷ as') = insert_sorted a (sort as')

abbrev pub values : {K V : Type 0} → HashMap K V → List V
values = map (λ entry. entry.1)

module _ (Json : Type 0) where
  pub record ProviderRuntime : Type 0 where
    pub adapters : HashMap ProviderAdapterId (ProviderAdapter Json)
    pub operations : HashMap ℕ ProviderAdapterId

module _ {Json : Type 0} where
  unfoldable pub empty : ProviderRuntime Json
  empty = record { adapters = []; operations = [] }

  unfoldable pub register :
      ProviderRuntime Json
      → ProviderAdapter Json
      → ProviderRuntime Json × Result ProviderRuntimeError (Unit {0})
  register r adapter =
      if contains_key adapter.id r.adapters
      then (r, err (duplicate_adapter adapter.id))
      else (record r { adapters = insert adapter.id adapter r.adapters }, ok tt)

  -- The private method `adapter`.
  abbrev pub find_adapter :
      ProviderRuntime Json → ProviderAdapterId → Result ProviderRuntimeError (ProviderAdapter Json)
  find_adapter r adapter_id = ok_or (get adapter_id r.adapters) (adapter_not_found adapter_id)

  unfoldable pub discover_all :
      ℕ → List (ProviderAdapter Json) → Result ProviderRuntimeError (List ProviderDescriptor)
  discover_all moment [] = ok []
  discover_all moment (a ∷ as') = do
    d ← map_err provider (a.discover moment)
    ds ← discover_all moment as'
    ok (d ∷ ds)

  unfoldable pub discover :
      ℕ → ProviderRuntime Json → Result ProviderRuntimeError (List ProviderDescriptor)
  unfolding discover_all sort text_le
  discover moment r = do
    descriptors ← discover_all moment (values r.adapters)
    ok (sort (λ left right. text_le left.adapter_id right.adapter_id) descriptors)

  unfoldable pub descriptor :
      ℕ → ProviderRuntime Json → ProviderAdapterId → Result ProviderRuntimeError ProviderDescriptor
  descriptor moment r adapter_id = do
    a ← find_adapter r adapter_id
    map_err provider (a.discover moment)

  unfoldable pub health : ℕ → ProviderRuntime Json → List (ProviderAdapterId × ProviderHealth)
  unfolding sort text_le
  health moment r =
      sort (λ left right. text_le left.0 right.0)
        (map (λ a. (a.id, (a.health moment))) (values r.adapters))

  unfoldable pub health_for :
      ℕ → ProviderRuntime Json → ProviderAdapterId → Result ProviderRuntimeError ProviderHealth
  health_for moment r adapter_id = do a ← find_adapter r adapter_id; ok (a.health moment)

  unfoldable pub models :
      ℕ
      → ProviderRuntime Json
      → ProviderAdapterId
      → Result ProviderRuntimeError (List ProviderModel)
  models moment r adapter_id = do a ← find_adapter r adapter_id; map_err provider (a.models moment)

  unfoldable pub reserve_operation :
      ProviderRuntime Json
      → ℕ
      → ProviderAdapterId
      → ProviderRuntime Json × Result ProviderRuntimeError (Unit {0})
  reserve_operation r operation_id adapter_id =
      if contains_key operation_id r.operations
      then (r, err (duplicate_operation operation_id))
      else (record r { operations = insert operation_id adapter_id r.operations }, ok tt)

  unfoldable pub finish : ProviderRuntime Json → ℕ → ProviderRuntime Json
  finish r operation_id = record r { operations = remove operation_id r.operations }

  -- The part of `start` and `resume` before the adapter is awaited.
  unfoldable pub begin :
      ProviderRuntime Json
      → ProviderAdapterId
      → ℕ
      → ProviderRuntime Json × Result ProviderRuntimeError (ProviderAdapter Json)
  unfolding reserve_operation
  begin r adapter_id operation_id = elim (get adapter_id r.adapters) [
    | none ↦ (r, err (adapter_not_found adapter_id))
    | some a ↦
        let (r', reserved) = reserve_operation r operation_id adapter_id in
        (r', reserved >>= λ _. ok a)
  ]

  -- The match of `start` and `resume` on the adapter's answer.
  unfoldable pub settle :
      ProviderRuntime Json
      → ℕ
      → Result ProviderError ProviderRun
      → ProviderRuntime Json × Result ProviderRuntimeError ProviderRun
  unfolding finish
  settle r operation_id (ok run) =
      if run.operation_id == operation_id
      then (r, ok run)
      else (finish r operation_id, err operation_mismatch)
  settle r operation_id (err e) = (finish r operation_id, err (provider e))

  unfoldable pub settle_begun :
      ℕ
      → (ProviderAdapter Json → Result ProviderError ProviderRun)
      → ProviderRuntime Json × Result ProviderRuntimeError (ProviderAdapter Json)
      → ProviderRuntime Json × Result ProviderRuntimeError ProviderRun
  settle_begun operation_id answer (r, err e) = (r, err e)
  settle_begun operation_id answer (r, ok a) = settle r operation_id (answer a)

  -- A call of `start` or `resume`, by the answer of the adapter that it awaits.
  unfoldable pub run_call :
      ProviderRuntime Json
      → ProviderAdapterId
      → ℕ
      → (ProviderAdapter Json → Result ProviderError ProviderRun)
      → ProviderRuntime Json × Result ProviderRuntimeError ProviderRun
  unfolding settle_begun
  run_call r adapter_id operation_id answer =
      settle_begun operation_id answer (begin r adapter_id operation_id)

  unfoldable pub start :
      ℕ
      → ProviderRuntime Json
      → ProviderAdapterId
      → StartRequest Json
      → ProviderRuntime Json × Result ProviderRuntimeError ProviderRun
  unfolding run_call
  start moment r adapter_id request =
      run_call r adapter_id request.operation_id (λ a. a.start moment request)

  unfoldable pub resume :
      ℕ
      → ProviderRuntime Json
      → ProviderAdapterId
      → ResumeRequest Json
      → ProviderRuntime Json × Result ProviderRuntimeError ProviderRun
  unfolding run_call
  resume moment r adapter_id request =
      run_call r adapter_id request.operation_id (λ a. a.resume moment request)

  unfoldable pub cancel : ℕ → ProviderRuntime Json → ℕ → Result ProviderRuntimeError (Unit {0})
  cancel moment r operation_id = do
    adapter_id ← ok_or (get operation_id r.operations) (operation_not_found operation_id)
    a ← find_adapter r adapter_id
    map_err provider (a.cancel moment operation_id)

  unfoldable pub resolve_approval :
      ℕ
      → ProviderRuntime Json
      → ProviderAdapterId
      → ℕ
      → ApprovalDecision
      → Result ProviderRuntimeError (Unit {0})
  resolve_approval moment r adapter_id approval_id decision = do
    a ← find_adapter r adapter_id
    map_err provider (a.resolve_approval moment approval_id decision)

  unfoldable pub resolve_tool_call :
      ℕ
      → ProviderRuntime Json
      → ProviderAdapterId
      → Text
      → ProviderToolResult
      → Result ProviderRuntimeError (Unit {0})
  resolve_tool_call moment r adapter_id call_id result = do
    a ← find_adapter r adapter_id
    map_err provider (a.resolve_tool_call moment call_id result)

  unfoldable pub compact :
      ℕ
      → ProviderRuntime Json
      → ProviderAdapterId
      → CompactRequest
      → Result ProviderRuntimeError (Unit {0})
  compact moment r adapter_id request = do
    a ← find_adapter r adapter_id
    map_err provider (a.compact moment request)
