-- ===== src/Routines/Replay/Run.antt =====
-- What a replay does (crates/homebot-routines/src/lib.rs: `replay`).
use home_bot.Common.{
  ◌≡◌, refl, sym, ap, ◌∙◌, inl, inr, Bool, true, none, List, [], ◌∷◌, arith, ℕ, suc, ◌+◌, ◌≤◌, ok,
  Bool-cases, Result-cases, length, refused, ok_unique,
}
use home_bot.Routines.Replay.Defs.{
  Json, RoutineActionExecutor, RoutineExecutionResult, RoutineStep, validate, RoutineDefinition,
  planned, validate_inputs,
}
use home_bot.Routines.Replay.Steps.{replay, replay_steps}
use home_bot.Common.Int.{to_u32-small}

module _ {J : Json} where
  -- Each step of a dry run, from an index on.
  abbrev pub plan : ℕ → List (RoutineStep J) → List (RoutineExecutionResult J)
  plan n [] = []
  plan n (step ∷ steps) =
      record { step_index = n; status = planned; output = none } ∷ plan (suc n) steps

  validate-length :
      (definition : RoutineDefinition J)
      → validate definition ≡ ok tt
      → length definition.steps ≤ 256
  unfolding validate
  validate-length definition h = ground arith

  module _ {S : Type 0} (e : RoutineActionExecutor J S) (inputs : J.Value) where
    pub replay-ok :
        (definition : RoutineDefinition J) (dry_run : Bool) (s : S)
        {rs : List (RoutineExecutionResult J)}
        → (replay e inputs definition dry_run s).1 ≡ ok rs
        → (length definition.steps ≤ 256)
          × ((replay_steps e inputs dry_run 0 definition.steps s).1 ≡ ok rs)
          × ((replay e inputs definition dry_run s).0
              ≡ (replay_steps e inputs dry_run 0 definition.steps s).0)
    unfolding replay
    replay-ok definition dry_run s h = elim (Result-cases (validate definition)) [
      | inr (x, p) ↦ absurd (refused _ refl (rw (replay, p) at h))
      | inl (u, p) ↦ elim (Bool-cases (J.is_object inputs)) [
        | inr other ↦ absurd (refused _ refl (rw (replay, p, other) at h))
        | inl object ↦ elim (Result-cases (validate_inputs J definition inputs)) [
          | inr (x, q) ↦ absurd (refused _ refl (rw (replay, p, object, q) at h))
          | inl (v, q) ↦ (
            validate-length definition p,
            rw (replay, p, object, q) at h,
            rw (replay, p, object, q),
          )
        ]
      ]
    ]

    dry_steps :
        (n : ℕ) (steps : List (RoutineStep J)) (s : S) {rs : List (RoutineExecutionResult J)}
        → n + length steps ≤ 256
        → (replay_steps e inputs true n steps s).1 ≡ ok rs
        → plan n steps ≡ rs
    unfolding replay_steps
    dry_steps n [] s few h = ok_unique _ refl h
    dry_steps n (step ∷ steps) s {rs} few h =
        elim (Result-cases (e.validate_step s step inputs).1) [
          | inr (x, p) ↦ absurd (refused _ refl (rw (replay_steps, p) at h))
          | inl (u, p) ↦
              let t = (e.validate_step s step inputs).0 in
              elim (Result-cases (replay_steps e inputs true (suc n) steps t).1) [
                | inr (x, q) ↦ absurd (refused _ refl (rw (replay_steps, p, q) at h))
                | inl (more, q) ↦
                    let ih = sym (dry_steps (suc n) steps t (omega (arith, few)) q) in
                    ok_unique _ refl
                      (rw (replay_steps, p, q, to_u32-small n (omega (arith, few)), ih) at h)
              ]
        ]

    -- A dry run that returns has planned every step of the definition in order, numbered from 0, and
    -- no other.
    pub dry_run-plan :
        (definition : RoutineDefinition J) (s : S) {rs : List (RoutineExecutionResult J)}
        → (replay e inputs definition true s).1 ≡ ok rs
        → rs ≡ plan 0 definition.steps
    dry_run-plan definition s h =
        let (few, p, end) = replay-ok definition true s h in
        sym (dry_steps 0 definition.steps s (omega (arith, few)) p)

  -- The executors check the steps alike, and leave the same state.
  abbrev pub ValidatesAlike :
      {S : Type 0} → RoutineActionExecutor J S → RoutineActionExecutor J S → J.Value → Type 0
  ValidatesAlike {S} e e' inputs =
      (s : S) (step : RoutineStep J)
      → e.validate_step s step inputs ≡ e'.validate_step s step inputs

  dry_steps-unaffected :
      {S : Type 0} (e e' : RoutineActionExecutor J S) (inputs : J.Value)
      → ValidatesAlike e e' inputs
      → (n : ℕ) (steps : List (RoutineStep J)) (s : S)
      → replay_steps e inputs true n steps s ≡ replay_steps e' inputs true n steps s
  unfolding replay_steps
  dry_steps-unaffected e e' inputs alike n [] s = refl
  dry_steps-unaffected e e' inputs alike n (step ∷ steps) s =
      let t = (e.validate_step s step inputs).0 in
      let t' = (e'.validate_step s step inputs).0 in
      let same : t ≡ t' = ap (λ o. o.0) (alike s step) in
      let ih = dry_steps-unaffected e e' inputs alike (suc n) steps t' in
      elim (Result-cases (e'.validate_step s step inputs).1) [
        | inr (x, p) ↦ let p' = ap (λ o. o.1) (alike s step) ∙ p in rw (replay_steps, p, p', same)
        | inl (u, p) ↦
            let p' = ap (λ o. o.1) (alike s step) ∙ p in rw (replay_steps, p, p', same, ih)
      ]

  -- A dry run neither asks for approvals nor executes: with two executors that check the steps alike,
  -- whatever else they do, it leaves the same state and returns the same results.
  pub dry_run-unaffected :
      {S : Type 0} (e e' : RoutineActionExecutor J S) (inputs : J.Value)
      → ValidatesAlike e e' inputs
      → (definition : RoutineDefinition J) (s : S)
      → replay e inputs definition true s ≡ replay e' inputs definition true s
  unfolding replay
  dry_run-unaffected e e' inputs alike definition s = elim (Result-cases (validate definition)) [
    | inr (x, p) ↦ rw (replay, p)
    | inl (u, p) ↦ elim (Bool-cases (J.is_object inputs)) [
      | inr other ↦ rw (replay, p, other)
      | inl object ↦ elim (Result-cases (validate_inputs J definition inputs)) [
        | inr (x, q) ↦ rw (replay, p, object, q)
        | inl (v, q) ↦
            rw (replay, p, object, q) (dry_steps-unaffected e e' inputs alike 0 definition.steps s)
      ]
    ]
  ]
