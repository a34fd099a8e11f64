-- ===== src/Tools/Policy/Rules.antt =====
-- crates/homebot-tools/src/policy.rs: `PolicyRule` and the evaluation of the rules.
use home_bot.Common.{
  ℕ, Bool, true, false, ◌&&◌, Option, none, some, List, [], ◌∷◌, ◌==◌, if◌then◌else◌, is_none_or,
}
use home_bot.Common.Text.{Text, starts_with}
use home_bot.Tools.Contracts.{CapabilityClass, CapabilityRequest, class_eq}

pub data PolicyEffect : Type 0 where
  deny require_approval allow : PolicyEffect

pub record PolicyRule : Type 0 where
  pub id : ℕ
  pub capability : CapabilityClass
  pub owner_id : Option ℕ
  pub device_id : Option ℕ
  pub bot_id : Option ℕ
  pub chat_id : Option ℕ
  pub workspace_id : Option ℕ
  pub action_prefix : Option Text
  pub effect : PolicyEffect

-- `PolicyRule::new`, with the identifier that it draws.
unfoldable pub new_rule : ℕ → CapabilityClass → PolicyEffect → PolicyRule
new_rule id capability effect = record {
  id = id;
  capability = capability;
  owner_id = none;
  device_id = none;
  bot_id = none;
  chat_id = none;
  workspace_id = none;
  action_prefix = none;
  effect = effect;
}

-- The builder methods `workspace`, `owner`, `device`, `bot`, `chat` and `action_prefix`.
unfoldable pub for_workspace : PolicyRule → ℕ → PolicyRule
for_workspace rule i = record rule { workspace_id = some i }

unfoldable pub for_owner : PolicyRule → ℕ → PolicyRule
for_owner rule i = record rule { owner_id = some i }

unfoldable pub for_device : PolicyRule → ℕ → PolicyRule
for_device rule i = record rule { device_id = some i }

unfoldable pub for_bot : PolicyRule → ℕ → PolicyRule
for_bot rule i = record rule { bot_id = some i }

unfoldable pub for_chat : PolicyRule → ℕ → PolicyRule
for_chat rule i = record rule { chat_id = some i }

unfoldable pub for_action_prefix : PolicyRule → Text → PolicyRule
for_action_prefix rule prefix = record rule { action_prefix = some prefix }

-- `PolicyRule::matches`.
unfoldable pub rule_matches : PolicyRule → CapabilityRequest → Bool
rule_matches rule request =
    class_eq rule.capability request.capability
    && is_none_or rule.owner_id (λ i. i == request.context.owner_id)
    && is_none_or rule.device_id (λ i. i == request.context.device_id)
    && is_none_or rule.bot_id (λ i. i == request.context.bot_id)
    && is_none_or rule.chat_id (λ i. i == request.context.chat_id)
    && is_none_or rule.workspace_id (λ i. i == request.context.workspace_id)
    && is_none_or rule.action_prefix (λ prefix. starts_with request.action prefix)

abbrev pub final_effect : Bool → Bool → PolicyEffect
final_effect matched_allow matched_approval =
    if matched_approval then require_approval else if matched_allow then allow else require_approval

-- The loop of `PolicyEngine::effect` over the rules that match, with its two flags.
unfoldable pub effect_loop : CapabilityRequest → Bool → Bool → List PolicyRule → PolicyEffect
effect_loop request matched_allow matched_approval [] = final_effect matched_allow matched_approval
effect_loop request matched_allow matched_approval (rule ∷ rules) =
    elim (rule_matches rule request) [
      | false ↦ effect_loop request matched_allow matched_approval rules
      | true ↦ elim rule.effect [
        | deny ↦ deny
        | require_approval ↦ effect_loop request matched_allow true rules
        | allow ↦ effect_loop request true matched_approval rules
      ]
    ]

-- `PolicyEngine::effect`.
unfoldable pub effect : List PolicyRule → CapabilityRequest → PolicyEffect
unfolding effect_loop
effect rules request = effect_loop request false false rules
