-- ===== src/Routines/Replay/Defs.antt =====
-- crates/homebot-routines/src/lib.rs: definitions of routines, recordings and inputs.
use home_bot.Common.{
  Bool, true, false, not, ◌&&◌, ◌||◌, Option, none, some, List, [], ◌∷◌, map, ℕ, ok, err, Result,
  if◌then◌else◌, ◌==◌, ltb, leb, ◌>>=◌, is_some_and, length, ok_or, all, any,
}
use home_bot.Common.Text.{Text, byte_len, codes, is_ascii_alphanumeric, trim, is_ascii, text_eq}
use home_bot.Common.HashMap.{HashMap, get, text_keys}

-- What the source uses of `serde_json::Value` and of `Uuid::parse_str`. An object is the list of its
-- entries.
pub record Json : Type 1 where
  pub Value : Type 0
  pub is_object : Value → Bool
  pub as_object : Value → Option (HashMap Text Value)
  pub as_str : Value → Option Text
  pub is_number : Value → Bool
  pub is_boolean : Value → Bool
  pub is_uuid : Text → Bool

-- `text_input` is the variant `Text`.
pub data RoutineInputKind : Type 0 where
  text_input number boolean file_reference secret_reference : RoutineInputKind

pub record RoutineInput : Type 0 where
  pub key : Text
  pub label : Text
  pub kind : RoutineInputKind
  pub required : Bool

pub record ExpectedOutput : Type 0 where
  pub key : Text
  pub description : Text
  pub required : Bool

pub data RecordedActor : Type 0 where
  user bot : RecordedActor

pub data RoutineStepStatus : Type 0 where
  planned succeeded approval_required failed : RoutineStepStatus

pub data RoutineError : Type 0 where
  empty step_failed : RoutineError
  invalid : Text → RoutineError

-- `value.len() <= 64`, and each byte a letter, a digit, `_` or `-`.
unfoldable pub valid_key : Text → Bool
unfolding is_ascii_alphanumeric
valid_key value =
    not (byte_len value == 0)
    && leb (byte_len value) 64
    && all (λ b. is_ascii_alphanumeric b || (b == b'_') || (b == b'-')) value

module _ (J : Json) where
  pub data RoutineStep : Type 0 where
    bot_prompt : (bot_id : ℕ) (prompt_template : Text) (needs : Bool) → RoutineStep
    plugin_tool :
        (plugin_id : ℕ) (tool_name : Text) (arguments : J.Value) (needs : Bool) → RoutineStep
    record_output : (output_key value_template : Text) → RoutineStep

  pub record RoutineDefinition : Type 0 where
    pub inputs : List RoutineInput
    pub steps : List RoutineStep
    pub expected_outputs : List ExpectedOutput

  pub record RecordedAction : Type 0 where
    pub actor : RecordedActor
    pub step : RoutineStep

  pub record RoutineExecutionResult : Type 0 where
    pub step_index : ℕ
    pub status : RoutineStepStatus
    pub output : Option J.Value

  -- The trait `RoutineActionExecutor`, over the state that its methods change. Its default for
  -- `approval_required` is `requires_approval` of the step.
  pub record RoutineActionExecutor (S : Type 0) : Type 0 where
    pub validate_step : S → RoutineStep → J.Value → S × Result RoutineError (Unit {0})
    pub approval_required : S → RoutineStep → J.Value → S × Result RoutineError Bool
    pub execute_step : S → RoutineStep → J.Value → S × Result RoutineError J.Value

module _ {J : Json} where
  unfoldable pub requires_approval : RoutineStep J → Bool
  requires_approval (bot_prompt bot_id prompt needs) = needs
  requires_approval (plugin_tool plugin_id tool_name arguments needs) = needs
  requires_approval (record_output output_key value_template) = false

  -- The body of the loop of `validate`.
  unfoldable pub validate_step :
      List ExpectedOutput → RoutineStep J → Result RoutineError (Unit {0})
  unfolding valid_key
  validate_step outputs (bot_prompt bot_id prompt needs) =
      if byte_len (trim prompt) == 0 || ltb 32768 (byte_len prompt)
      then err (invalid (codes "Bot prompt"))
      else ok tt
  validate_step outputs (plugin_tool plugin_id tool_name arguments needs) =
      if byte_len tool_name == 0
        || ltb 128 (byte_len tool_name)
        || not (all is_ascii tool_name)
        || not (J.is_object arguments)
      then err (invalid (codes "plugin tool"))
      else ok tt
  validate_step outputs (record_output output_key value_template) =
      if not (valid_key output_key)
        || ltb 32768 (byte_len value_template)
        || not (any (λ output. text_eq output.key output_key) outputs)
      then err (invalid (codes "recorded output"))
      else ok tt

  unfoldable pub validate_steps :
      List ExpectedOutput → List (RoutineStep J) → Result RoutineError (Unit {0})
  unfolding validate_step
  validate_steps outputs [] = ok tt
  validate_steps outputs (step ∷ steps) =
      let rest = validate_steps outputs steps in validate_step outputs step >>= λ _. rest

  unfoldable pub validate : RoutineDefinition J → Result RoutineError (Unit {0})
  unfolding validate_steps valid_key
  validate definition =
      if length definition.steps == 0 || ltb 256 (length definition.steps)
      then err empty
      else if any (λ input. not (valid_key input.key)) definition.inputs
          || any (λ output. not (valid_key output.key)) definition.expected_outputs
      then err (invalid (codes "input/output key"))
      else validate_steps definition.expected_outputs definition.steps

  unfoldable pub recorded_outputs : List (RecordedAction J) → List ExpectedOutput
  recorded_outputs [] = []
  recorded_outputs (action ∷ actions) = elim action.step [
    | record_output output_key value_template ↦
        record {
          key = output_key;
          description = codes "Captured during demonstration";
          required = true;
        }
        ∷ recorded_outputs actions
    | bot_prompt bot_id prompt needs ↦ recorded_outputs actions
    | plugin_tool plugin_id tool_name arguments needs ↦ recorded_outputs actions
  ]

  unfoldable pub definition_from_recording :
      List (RecordedAction J) → Result RoutineError (RoutineDefinition J)
  unfolding recorded_outputs validate
  definition_from_recording actions =
      let definition : RoutineDefinition J = record {
        inputs = [];
        steps = map (λ action. action.step) actions;
        expected_outputs = recorded_outputs actions;
      } in
      validate definition >>= λ _. ok definition

module _ (J : Json) where
  unfoldable pub valid_value : RoutineInputKind → J.Value → Bool
  valid_value text_input value = is_some_and (J.as_str value) (λ text. leb (byte_len text) 32768)
  valid_value file_reference value =
      is_some_and (J.as_str value) (λ text. leb (byte_len text) 32768)
  valid_value secret_reference value = is_some_and (J.as_str value) J.is_uuid
  valid_value number value = J.is_number value
  valid_value boolean value = J.is_boolean value

  -- The loop of `validate_inputs`.
  unfoldable pub check_inputs :
      HashMap Text J.Value → List RoutineInput → Result RoutineError (Unit {0})
  unfolding valid_value
  check_inputs object [] = ok tt
  check_inputs object (input ∷ inputs) =
      let rest = check_inputs object inputs in
      elim (get input.key object) [
        | none ↦ if input.required then err (invalid (codes "required run input")) else rest
        | some value ↦
            if valid_value input.kind value then rest else err (invalid (codes "run input type"))
      ]

  unfoldable pub validate_inputs : RoutineDefinition J → J.Value → Result RoutineError (Unit {0})
  unfolding check_inputs
  validate_inputs definition inputs =
      ok_or (J.as_object inputs) (invalid (codes "run inputs")) >>= λ object.
      if any (λ entry. not (any (λ input. text_eq input.key entry.0) definition.inputs)) object
      then err (invalid (codes "unknown run input"))
      else check_inputs object definition.inputs
