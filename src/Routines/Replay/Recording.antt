-- ===== src/Routines/Replay/Recording.antt =====
-- Recordings (crates/homebot-routines/src/lib.rs: `definition_from_recording`).
use home_bot.Routines.Replay.Defs.{Json, RoutineActionExecutor, RoutineStep}
use home_bot.Common.{◌≡◌, ok}
use home_bot.Routines.Replay.Boundary.{RunsByDefinition}

module _ {J : Json} where
  -- The executor lets every step through: it accepts and executes each, and asks for the approvals
  -- of the definition.
  pub record RefusesNothing {S : Type 0} (e : RoutineActionExecutor J S) (inputs : J.Value)
      : Type 0 where
    pub validates : (s : S) (step : RoutineStep J) → (e.validate_step s step inputs).1 ≡ ok tt
    pub approves : RunsByDefinition e inputs
    pub executes :
        (s : S) (step : RoutineStep J)
        → (value : J.Value) × ((e.execute_step s step inputs).1 ≡ ok value)
