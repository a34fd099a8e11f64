-- ===== src/Providers/Runtime/Recover.antt =====
-- `recover` of crates/homebot-providers/src/runtime.rs.
use home_bot.Common.{List, [], ◌∷◌, ◌++◌, leb, Result, ok, err, ◌>>=◌, ℕ}
use home_bot.Common.HashMap.{nat_eq, text_keys}
use home_bot.Providers.Contracts.{ProviderAdapterId, ProviderAdapter, ProviderRun}
use home_bot.Providers.Runtime.Defs.{
  ProviderRuntime, reserve_operation, sort, ProviderRuntimeError, provider, values,
}

module _ {Json : Type 0} where
  -- The inner loop of `recover`: the runs of one adapter.
  unfoldable pub reserve_runs :
      ProviderRuntime Json
      → ProviderAdapterId
      → List ProviderRun
      → ProviderRuntime Json × Result ProviderRuntimeError (List ProviderRun)
  unfolding reserve_operation
  reserve_runs r adapter_id [] = (r, ok [])
  reserve_runs r adapter_id (run ∷ runs) =
      let (r', reserved) = reserve_operation r run.operation_id adapter_id in
      elim reserved [
        | err e ↦ (r', err e)
        | ok _ ↦
            let (r'', rest) = reserve_runs r' adapter_id runs in
            (r'', rest >>= λ recovered. ok (run ∷ recovered))
      ]

  unfoldable pub recover_all :
      ℕ
      → ProviderRuntime Json
      → List (ProviderAdapter Json)
      → ProviderRuntime Json × Result ProviderRuntimeError (List ProviderRun)
  unfolding reserve_runs
  recover_all moment r [] = (r, ok [])
  recover_all moment r (a ∷ as') = elim (a.recover moment) [
    | err e ↦ (r, err (provider e))
    | ok runs ↦
        let (r', reserved) = reserve_runs r a.id runs in
        elim reserved [
          | err e ↦ (r', err e)
          | ok recovered ↦
              let (r'', rest) = recover_all moment r' as' in
              (r'', rest >>= λ more. ok (recovered ++ more))
        ]
  ]

  unfoldable pub recover :
      ℕ
      → ProviderRuntime Json
      → ProviderRuntime Json × Result ProviderRuntimeError (List ProviderRun)
  unfolding recover_all sort
  recover moment r =
      let (r', found) = recover_all moment r (values r.adapters) in
      (
        r',
        found >>= λ runs. ok (sort (λ left right. leb left.operation_id right.operation_id) runs),
      )
