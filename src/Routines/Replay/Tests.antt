-- ===== src/Routines/Replay/Tests.antt =====
-- Routines of two steps, over JSON of strings and of objects with one entry at most.
use home_bot.Common.{
  ◌≡◌, refl, ◌↔◌, true, false, Option, none, some, List, [], ◌∷◌, map, ℕ, ◌+◌, ok, err, All,
  is_some, Result,
}
use home_bot.Common.Text.{
  Text, codes, is_ascii_alphanumeric, byte_len, trim, trim_end, trim_start, is_whitespace, text_eq,
}
use home_bot.Routines.Replay.Defs.{
  Json, RecordedAction, RoutineActionExecutor, RoutineDefinition, RoutineExecutionResult,
  RoutineStep, validate_inputs, bot_prompt, plugin_tool, record_output, requires_approval,
  step_failed, succeeded, text_input, user, approval_required, bot, validate, validate_steps,
  validate_step, check_inputs, valid_key, valid_value, RoutineError,
}
use home_bot.Routines.Replay.Steps.{replay, replay_steps}
use home_bot.Common.HashMap.{HashMap, get}
use home_bot.Routines.Replay.Run.{dry_run-unaffected, plan, dry_run-plan}
use home_bot.Routines.Replay.Boundary.{outcome, run-boundary}
use home_bot.Routines.Replay.Inputs.{IsDeclared, IsGiven, validate_inputs_iff}
use home_bot.Common.Int.{to_u32}

data Value : Type 0 where
  string : Text → Value
  no_entry : Value
  entry : Text → Value → Value

abbrev entries : Value → Option (HashMap Text Value)
entries (string s) = none
entries no_entry = some []
entries (entry k v) = some ((k, v) ∷ [])

abbrev string_of : Value → Option Text
string_of (string s) = some s
string_of no_entry = none
string_of (entry k v) = none

abbrev json : Json
json = record {
  Value = Value;
  is_object = λ value. is_some (entries value);
  as_object = entries;
  as_str = string_of;
  is_number = λ value. false;
  is_boolean = λ value. false;
  is_uuid = λ s. false;
}

-- Its state counts the steps that it executes.
abbrev counter : RoutineActionExecutor json ℕ
counter = record {
  validate_step = λ s step inputs. (s, ok tt);
  approval_required = λ s step inputs. (s, ok (requires_approval step));
  execute_step = λ s step inputs. (s + 1, ok no_entry);
}

abbrev failing : RoutineActionExecutor json ℕ
failing = record counter { execute_step = λ s step inputs. (s + 100, err step_failed) }

abbrev ask : RoutineStep json
ask = bot_prompt 1 (codes "go") false

abbrev act : RoutineStep json
act = plugin_tool 2 (codes "t") no_entry true

abbrev routine : RoutineDefinition json
routine = record {
  inputs = record { key = codes "name"; label = []; kind = text_input; required = true } ∷ [];
  steps = ask ∷ act ∷ ask ∷ [];
  expected_outputs = [];
}

abbrev given : Value
given = entry (codes "name") (string (codes "Nova"))

abbrev boundary_results : List (RoutineExecutionResult json)
boundary_results =
    record { step_index = 0; status = succeeded; output = some no_entry }
    ∷ record { step_index = 1; status = approval_required; output = none }
    ∷ []

-- The counter stands at 1: the first step is executed, and the one that needs an approval is not.
run-boundary_example :
    (map outcome boundary_results ≡ (0, succeeded) ∷ (1, approval_required) ∷ [])
    × ((replay counter given routine false 0).0 ≡ 1)
    × (map {B = Result RoutineError (Option Value)} (λ r. ok r.output) boundary_results
        ≡ ok (some no_entry) ∷ ok none ∷ [])
unfolding replay replay_steps validate validate_steps validate_step validate_inputs check_inputs
    valid_value valid_key is_ascii_alphanumeric byte_len trim trim_end trim_start is_whitespace
    text_eq get to_u32 requires_approval
run-boundary_example = run-boundary counter given routine 0 (λ s step. refl) refl

abbrev planned_results : List (RoutineExecutionResult json)
planned_results = plan 0 routine.steps

dry_run-plan_example : planned_results ≡ plan 0 routine.steps
unfolding replay replay_steps validate validate_steps validate_step validate_inputs check_inputs
    valid_value valid_key is_ascii_alphanumeric byte_len trim trim_end trim_start is_whitespace
    text_eq get to_u32
dry_run-plan_example = dry_run-plan counter given routine 0 {rs = planned_results} refl

dry_run-unaffected_example :
    replay counter given routine true 0 ≡ replay failing given routine true 0
dry_run-unaffected_example = dry_run-unaffected counter failing given (λ s step. refl) routine 0

validate_inputs_iff_example : (validate_inputs json routine given ≡ ok tt) ↔ (
    (object : HashMap Text Value) × (entries given ≡ some object)
    × All (IsDeclared json routine.inputs) object
    × All (IsGiven json object) routine.inputs)
validate_inputs_iff_example = validate_inputs_iff json routine given

abbrev recording : List (RecordedAction json)
recording =
    record { actor = user; step = ask }
    ∷ record { actor = bot; step = record_output (codes "out") [] }
    ∷ []

abbrev recorded : RoutineDefinition json
recorded = record {
  inputs = [];
  steps = ask ∷ record_output (codes "out") [] ∷ [];
  expected_outputs =
      record {
        key = codes "out";
        description = codes "Captured during demonstration";
        required = true;
      }
      ∷ [];
}
