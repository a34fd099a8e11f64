-- ===== src/Routines/Replay/Inputs.antt =====
-- The inputs of a run and recordings (crates/homebot-routines/src/lib.rs: `validate_inputs`,
-- `definition_from_recording`).
use home_bot.Common.{
  ◌≡◌, refl, ◌↔◌, ◌⊎◌, inl, inr, Bool, true, false, not, none, some, List, [], ◌∷◌, arith, ok,
  Bool-cases, Option-cases, All, any, refused, is_some_and, leb, ◌≤◌,
}
use home_bot.Routines.Replay.Defs.{
  Json, RoutineInput, check_inputs, boolean, file_reference, number, secret_reference, text_input,
  valid_value, validate_inputs, RoutineDefinition, RoutineInputKind,
}
use home_bot.Common.HashMap.{HashMap, get, text_keys}
use home_bot.Common.Text.{Text, text_eq, byte_len}

module _ (J : Json) where
  -- A value is of a kind; a text and a file reference have at most 32,768 bytes.
  abbrev pub IsOfKind : RoutineInputKind → J.Value → Type 0
  IsOfKind text_input value = (text : Text) × (J.as_str value ≡ some text) × (byte_len text ≤ 32768)
  IsOfKind file_reference value =
      (text : Text) × (J.as_str value ≡ some text) × (byte_len text ≤ 32768)
  IsOfKind secret_reference value =
      (text : Text) × (J.as_str value ≡ some text) × (J.is_uuid text ≡ true)
  IsOfKind number value = J.is_number value ≡ true
  IsOfKind boolean value = J.is_boolean value ≡ true

  small_text_iff :
      (value : J.Value)
      → (is_some_and (J.as_str value) (λ text. leb (byte_len text) 32768) ≡ true)
        ↔ ((text : Text) × (J.as_str value ≡ some text) × (byte_len text ≤ 32768))
  small_text_iff value = elim (Option-cases (J.as_str value)) [
    | inl other ↦ (λ h. absurd (cc (rw other at h)), λ (text, p, q). absurd (cc))
    | inr (s, p) ↦ (λ h. (s, p, ground (arith, rw p at h)), λ (text, q, few). rw q (ground arith))
  ]

  valid_value_iff :
      (kind : RoutineInputKind) (value : J.Value)
      → (valid_value J kind value ≡ true) ↔ IsOfKind kind value
  unfolding valid_value
  valid_value_iff text_input value = small_text_iff value
  valid_value_iff file_reference value = small_text_iff value
  valid_value_iff secret_reference value = elim (Option-cases (J.as_str value)) [
    | inl other ↦ (λ h. absurd (cc (rw (other, valid_value) at h)), λ (text, p, q). absurd (cc))
    | inr (s, p) ↦ (λ h. (s, p, ground (arith, rw p at h)), λ (text, q, good). rw q good)
  ]
  valid_value_iff number value = (λ h. h, λ h. h)
  valid_value_iff boolean value = (λ h. h, λ h. h)

  -- An input is given a value of its kind, or is optional and left out.
  abbrev pub IsGiven : HashMap Text J.Value → RoutineInput → Type 0
  IsGiven object input =
      ((value : J.Value) × (get input.key object ≡ some value) × IsOfKind input.kind value)
      ⊎ ((get input.key object ≡ none) × (input.required ≡ false))

  abbrev pub IsDeclared : List RoutineInput → Text × J.Value → Type 0
  IsDeclared inputs entry = any (λ input. text_eq input.key entry.0) inputs ≡ true

  abbrev has_unknown : HashMap Text J.Value → List RoutineInput → Bool
  has_unknown object inputs =
      any (λ entry. not (any (λ input. text_eq input.key entry.0) inputs)) object

  has_unknown_iff :
      (inputs : List RoutineInput) (object : HashMap Text J.Value)
      → (has_unknown object inputs ≡ false) ↔ All (IsDeclared inputs) object
  has_unknown_iff inputs [] = (λ h. tt, λ h. refl)
  has_unknown_iff inputs (entry ∷ object) = ground (arith, has_unknown_iff inputs object)

  check_inputs_iff :
      (object : HashMap Text J.Value) (inputs : List RoutineInput)
      → (check_inputs J object inputs ≡ ok tt) ↔ All (IsGiven object) inputs
  unfolding check_inputs
  check_inputs_iff object [] = (λ h. tt, λ h. refl)
  check_inputs_iff object (input ∷ inputs) = elim (Option-cases (get input.key object)) [
    | inl missing ↦ elim (Bool-cases input.required) [
      | inl needed ↦ (
        λ h. absurd (refused _ refl (rw (check_inputs, missing, needed) at h)),
        λ h. elim h.0 [ inl (value, found, good) ↦ absurd (cc) | inr (absent, free) ↦ absurd (cc) ],
      )
      | inr free ↦ (
        λ h. (
          inr (missing, free),
          (check_inputs_iff object inputs).0 (rw (check_inputs, missing, free) at h),
        ),
        λ h. rw (check_inputs, missing, free) ((check_inputs_iff object inputs).1 h.1),
      )
    ]
    | inr (value, found) ↦ elim (Bool-cases (valid_value J input.kind value)) [
      | inl good ↦ (
        λ h. (
          inl (value, found, (valid_value_iff input.kind value).0 good),
          (check_inputs_iff object inputs).0 (rw (check_inputs, found, good) at h),
        ),
        λ h. rw (check_inputs, found, good) ((check_inputs_iff object inputs).1 h.1),
      )
      | inr bad ↦ (
        λ h. absurd (refused _ refl (rw (check_inputs, found, bad) at h)),
        λ h. elim h.0 [
          | inl (other, found', fine) ↦
              let good = (valid_value_iff input.kind other).1 fine in absurd (cc)
          | inr (absent, free) ↦ absurd (cc)
        ],
      )
    ]
  ]

  -- The inputs of a run are accepted exactly where they are an object, each of its keys is declared,
  -- and each declared input has a value of its kind or is optional and left out. A text and a file
  -- reference are strings of at most 32,768 bytes, and a secret reference is a string that is a UUID.
  pub validate_inputs_iff :
      (definition : RoutineDefinition J) (inputs : J.Value)
      → (validate_inputs J definition inputs ≡ ok tt) ↔ (
          (object : HashMap Text J.Value) × (J.as_object inputs ≡ some object)
          × All (IsDeclared definition.inputs) object
          × All (IsGiven object) definition.inputs)
  unfolding validate_inputs
  validate_inputs_iff definition inputs = (
    λ h. elim (Option-cases (J.as_object inputs)) [
      | inl other ↦ absurd (refused _ refl (rw (validate_inputs, other) at h))
      | inr (object, p) ↦ elim (Bool-cases (has_unknown object definition.inputs)) [
        | inl unknown ↦ absurd (refused _ refl (rw (validate_inputs, p, unknown) at h))
        | inr known ↦ (
          object,
          p,
          (has_unknown_iff definition.inputs object).0 known,
          (check_inputs_iff object definition.inputs).0 (rw (validate_inputs, p, known) at h),
        )
      ]
    ],
    λ (object, p, declared, given).
        rw (validate_inputs, p, (has_unknown_iff definition.inputs object).1 declared)
          ((check_inputs_iff object definition.inputs).1 given),
  )
