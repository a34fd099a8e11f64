-- ===== src/Routines/Replay/Boundary.antt =====
-- What a run executes, up to the first step that needs an approval
-- (crates/homebot-routines/src/lib.rs: `replay`).
use mathlib.Core.Path.{subst}
use home_bot.Common.{
  ◌≡◌, refl, ap, inl, inr, false, none, List, [], ◌∷◌, map, arith, ℕ, suc, ◌+◌, ◌≤◌, ok,
  if◌then◌else◌, Bool-cases, Result-cases, length, refused, ok_unique, Result, Option, ◌>>=◌, some,
}
use home_bot.Routines.Replay.Defs.{
  Json, RoutineActionExecutor, RoutineExecutionResult, RoutineStep, RoutineDefinition,
  RoutineStepStatus, requires_approval, approval_required, succeeded, RoutineError,
}
use home_bot.Routines.Replay.Steps.{replay, replay_steps}
use home_bot.Common.Int.{to_u32-small}
use home_bot.Routines.Replay.Run.{replay-ok}

-- The index and the status of a result.
abbrev pub outcome : {J : Json} → RoutineExecutionResult J → ℕ × RoutineStepStatus
outcome r = (r.step_index, r.status)

module _ {J : Json} where
  -- The steps of a run up to the first that needs an approval.
  abbrev pub boundary : ℕ → List (RoutineStep J) → List (ℕ × RoutineStepStatus)
  boundary n [] = []
  boundary n (step ∷ steps) =
      let rest = boundary (suc n) steps in
      if requires_approval step then (n, approval_required) ∷ [] else (n, succeeded) ∷ rest

  module _ {S : Type 0} (e : RoutineActionExecutor J S) (inputs : J.Value) where
    -- The state after a step has been checked and the executor asked for its approval, and after it
    -- has been executed too.
    abbrev pub ask_step : S → RoutineStep J → S
    ask_step s step = (e.approval_required (e.validate_step s step inputs).0 step inputs).0

    abbrev pub perform : S → RoutineStep J → S
    perform s step = (e.execute_step (ask_step s step) step inputs).0

    -- The state after the steps before the first that needs an approval are performed, and that one
    -- is only asked for.
    abbrev pub perform_all : List (RoutineStep J) → S → S
    perform_all [] s = s
    perform_all (step ∷ steps) s =
        let rest = perform_all steps (perform s step) in
        if requires_approval step then ask_step s step else rest

    -- The output of each step that is performed, and none for the one that needs an approval.
    abbrev pub outputs_of : List (RoutineStep J) → S → List (Result RoutineError (Option J.Value))
    outputs_of [] s = []
    outputs_of (step ∷ steps) s =
        let rest = outputs_of steps (perform s step) in
        let executed = (e.execute_step (ask_step s step) step inputs).1 in
        if requires_approval step
        then ok none ∷ []
        else (executed >>= λ value. ok (some value)) ∷ rest

    -- What a run that returns has done from an index and a state on.
    abbrev pub IsRunOf : ℕ → List (RoutineStep J) → S → S → List (RoutineExecutionResult J) → Type 0
    IsRunOf n steps s t rs =
        (map outcome rs ≡ boundary n steps)
        × (t ≡ perform_all steps s)
        × (map (λ r. ok r.output) rs ≡ outputs_of steps s)

    abbrev pub RunsByDefinition : Type 0
    RunsByDefinition =
        (s : S) (step : RoutineStep J)
        → (e.approval_required s step inputs).1 ≡ ok (requires_approval step)

    run_steps :
        RunsByDefinition
        → (n : ℕ) (steps : List (RoutineStep J)) (s : S) {rs : List (RoutineExecutionResult J)}
        → n + length steps ≤ 256
        → (replay_steps e inputs false n steps s).1 ≡ ok rs
        → IsRunOf n steps s (replay_steps e inputs false n steps s).0 rs
    unfolding replay_steps
    run_steps policy n [] s {rs} few h =
        subst (IsRunOf n [] s s) (ok_unique _ refl h) (refl, refl, refl)
    run_steps policy n (step ∷ steps) s {rs} few h =
        let small = to_u32-small n (omega (arith, few)) in
        let t = (e.validate_step s step inputs).0 in
        let w = (e.approval_required t step inputs).0 in
        elim (Result-cases (e.validate_step s step inputs).1) [
          | inr (x, p) ↦ absurd (refused _ refl (rw (replay_steps, p) at h))
          | inl (u, p) ↦ elim (Bool-cases (requires_approval step)) [
            | inl asks ↦
                let eq = ok_unique _ refl (rw (replay_steps, p, policy t step, asks, small) at h) in
                rw (← eq, replay_steps, p, policy t step, asks) (refl, refl, refl)
            | inr free ↦ elim (Result-cases (e.execute_step w step inputs).1) [
              | inr (x, q) ↦
                  absurd (refused _ refl (rw (replay_steps, p, policy t step, free, q) at h))
              | inl (value, q) ↦
                  let t' = (e.execute_step w step inputs).0 in
                  elim (Result-cases (replay_steps e inputs false (suc n) steps t').1) [
                    | inr (x, m) ↦
                        absurd
                          (refused _ refl (rw (replay_steps, p, policy t step, free, q, m) at h))
                    | inl (more, m) ↦
                        let (out, end, outs) =
                          run_steps policy (suc n) steps t' (omega (arith, few)) m in
                        let eq =
                          ok_unique _ refl
                            (rw (replay_steps, p, policy t step, free, q, m, small) at h) in
                        rw (← eq, replay_steps, p, policy t step, free, q)
                          (
                            ap (λ l. (n, succeeded) ∷ l) out,
                            end,
                            ap (λ l. ok (some value) ∷ l) outs,
                          )
                  ]
            ]
          ]
        ]

    -- Where the executor asks for approvals as the definition says, which is its default, a run that
    -- returns has executed the steps in order, numbered from 0, up to the first that needs an
    -- approval: each of them has succeeded with the output that the executor gave, the one that needs
    -- an approval is checked and asked for but not executed, and has that as its result, and no later
    -- step is touched; the state is the one that these calls of the executor leave.
    pub run-boundary :
        (definition : RoutineDefinition J) (s : S) {rs : List (RoutineExecutionResult J)}
        → RunsByDefinition
        → (replay e inputs definition false s).1 ≡ ok rs
        → IsRunOf 0 definition.steps s (replay e inputs definition false s).0 rs
    run-boundary definition s policy h =
        let (few, p, end) = replay-ok e inputs definition false s h in
        rw end (run_steps policy 0 definition.steps s (omega (arith, few)) p)
