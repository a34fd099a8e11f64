-- ===== src/Routines/Replay/Steps.antt =====
-- `replay` of crates/homebot-routines/src/lib.rs.
use home_bot.Common.{
  Bool, true, false, not, none, some, List, [], ◌∷◌, ℕ, suc, ok, err, Result, if◌then◌else◌, ◌>>=◌,
}
use home_bot.Common.Text.{codes}
use home_bot.Common.Int.{to_u32}
use home_bot.Common.HashMap.{text_keys}
use home_bot.Routines.Replay.Defs.{
  Json, RoutineActionExecutor, RoutineStep, validate, RoutineError, validate_inputs,
  RoutineDefinition, RoutineExecutionResult, invalid, planned, approval_required, succeeded,
}

module _ {J : Json} {S : Type 0} (executor : RoutineActionExecutor J S) (inputs : J.Value) where
  -- The loop of `replay` from an index on.
  unfoldable pub replay_steps :
      Bool
      → ℕ
      → List (RoutineStep J)
      → S
      → S × Result RoutineError (List (RoutineExecutionResult J))
  unfolding to_u32
  replay_steps dry_run index [] s = (s, ok [])
  replay_steps dry_run index (step ∷ steps) s =
      let (s₁, checked) = executor.validate_step s step inputs in
      elim checked [
        | err e ↦ (s₁, err e)
        | ok _ ↦ elim dry_run [
          | true ↦
              let (t, rest) = replay_steps dry_run (suc index) steps s₁ in
              let result : RoutineExecutionResult J = record {
                step_index = to_u32 index;
                status = planned;
                output = none;
              } in
              (t, rest >>= λ results. ok (result ∷ results))
          | false ↦
              let (s₂, asked) = executor.approval_required s₁ step inputs in
              elim asked [
                | err e ↦ (s₂, err e)
                | ok true ↦
                    let result : RoutineExecutionResult J = record {
                      step_index = to_u32 index;
                      status = approval_required;
                      output = none;
                    } in
                    (s₂, ok (result ∷ []))
                | ok false ↦
                    let (s₃, executed) = executor.execute_step s₂ step inputs in
                    elim executed [
                      | err e ↦ (s₃, err e)
                      | ok value ↦
                          let (t, rest) = replay_steps dry_run (suc index) steps s₃ in
                          let result : RoutineExecutionResult J = record {
                            step_index = to_u32 index;
                            status = succeeded;
                            output = some value;
                          } in
                          (t, rest >>= λ results. ok (result ∷ results))
                    ]
              ]
        ]
      ]

  unfoldable pub replay :
      RoutineDefinition J → Bool → S → S × Result RoutineError (List (RoutineExecutionResult J))
  unfolding replay_steps validate validate_inputs
  replay definition dry_run s = elim (validate definition) [
    | err e ↦ (s, err e)
    | ok _ ↦
        if not (J.is_object inputs)
        then (s, err (invalid (codes "run inputs")))
        else elim (validate_inputs J definition inputs) [
          | err e ↦ (s, err e)
          | ok _ ↦ replay_steps dry_run 0 definition.steps s
        ]
  ]
