-- ===== src/Secrets/Tests.antt =====
-- A secret in the vault in memory, and a tool that may use it.
use home_bot.Common.{◌≡◌, refl, ◌≢◌, none, some, [], ◌∷◌, ℕ, ok}
use home_bot.Secrets.Use.{
  resolve_for_tool, is_purpose, secret_request, locator_for, resolve_for_tool-IsPermitted, IsUseOf,
}
use home_bot.Secrets.Vault.{
  MemorySecretVault, memory_put, check_locator, validate_locator, ensure_available, memory_resolve,
  memory_delete, status, memory_vault, SecretStatus,
}
use home_bot.Tools.Contracts.{OperationContext, secret_use, CapabilityRequest}
use home_bot.Tools.Policy.Engine.{Draws, PolicyEngine, replace_rules, new}
use home_bot.Common.Text.{
  Text, codes, starts_with, byte_len, is_ascii_alphanumeric, trim, trim_end, trim_start,
  is_whitespace, text_eq,
}
use home_bot.Tools.Policy.Rules.{new_rule, PolicyEffect, effect, effect_loop, rule_matches}
use home_bot.Tools.Policy.Authorize.{authorize, enforce, require, issue}
use home_bot.Secrets.Memory.{resolve-put-delete}
use home_bot.Common.HashMap.{get}

abbrev vault_of_one : MemorySecretVault
vault_of_one = record { values = (codes "homebot:a", codes "s1") ∷ []; forced_status = none }

resolve-put-delete_example :
    let stored = (memory_put vault_of_one (codes "homebot:b") (codes "s2")).0 in
    (memory_resolve stored (codes "homebot:b") ≡ ok (codes "s2"))
    × (codes "homebot:a" ≢ codes "homebot:b"
        → memory_resolve stored (codes "homebot:a")
          ≡ memory_resolve vault_of_one (codes "homebot:a"))
    × ((memory_delete stored (codes "homebot:b")).1 ≡ ok tt)
    × (status memory_vault (memory_delete stored (codes "homebot:b")).0 (codes "homebot:b")
        ≡ SecretStatus.missing)
unfolding memory_put check_locator validate_locator ensure_available starts_with byte_len
    is_ascii_alphanumeric
resolve-put-delete_example =
    resolve-put-delete vault_of_one (codes "homebot:b") (codes "s2") (codes "homebot:a") refl

abbrev caller : OperationContext
caller = record {
  operation_id = 1;
  owner_id = 2;
  device_id = 3;
  bot_id = 4;
  chat_id = 5;
  workspace_id = 6;
}

-- The one reference of the test has the text "a".
abbrev text_a : ℕ → Text
text_a id = codes "a"

abbrev engine : PolicyEngine
engine = replace_rules (new 1000) (new_rule 9 secret_use PolicyEffect.allow ∷ [])

abbrev no_draws : Draws
no_draws = record { now = 0; ticket_now = 0; approval_id = 0; activity_id = 0; activity_now = 0 }

resolve_for_tool-IsPermitted_example :
    (request : CapabilityRequest) × IsUseOf text_a caller 7 (trim (codes " mail ")) request
    × (effect engine.rules request ≡ PolicyEffect.allow)
    × (memory_resolve vault_of_one (codes "homebot:a") ≡ ok (codes "s1"))
unfolding resolve_for_tool is_purpose secret_request locator_for authorize enforce require issue
    effect effect_loop rule_matches new_rule new replace_rules memory_resolve check_locator
    validate_locator ensure_available starts_with byte_len is_ascii_alphanumeric trim trim_end
    trim_start is_whitespace get text_eq
resolve_for_tool-IsPermitted_example =
    resolve_for_tool-IsPermitted text_a (λ request. some 1) memory_vault engine vault_of_one caller
      7 (codes " mail ") none no_draws refl
