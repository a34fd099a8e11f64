-- ===== src/Tools/Policy/Race.antt =====
-- `authorize` (crates/homebot-tools/src/policy.rs) reads the effect of the rules under one lock and
-- files the approval under another: what happens when the rules are replaced in between.
use home_bot.Common.{ℕ, ◌<◌, ◌≡◌, Option, some, List, [], arith, ok}
use home_bot.Common.HashMap.{nat_eq, get, insert}
use home_bot.Tools.Contracts.{CapabilityRequest, allow_once}
use home_bot.Tools.Policy.Rules.{PolicyRule, effect, require_approval}
use home_bot.Tools.Policy.Engine.{PolicyEngine, Draws, replace_rules, effect_for, decide}
use home_bot.Tools.Policy.Authorize.{enforce, authorize, new_ticket}

-- The rules are replaced after `authorize` has read their effect and before it files the approval; the
-- user then allows it.
abbrev pub raced : PolicyEngine → CapabilityRequest → ℕ → List PolicyRule → Draws → ℕ → PolicyEngine
raced e request digest rules draws now =
    let filed = (enforce (replace_rules e rules) request digest draws (effect_for e request)).0 in
    (decide filed draws.approval_id allow_once now).0

module _ (request_digest : CapabilityRequest → Option ℕ) where
  -- If the rules that `authorize` read ask for an approval, no approval was held, and the rules are
  -- replaced before the approval is filed, then the approval, allowed by the user before it expires,
  -- lets the request through whatever the new rules say of it, also where they deny it.
  pub approval_survives_new_rules :
      (e : PolicyEngine) (request : CapabilityRequest) (digest : ℕ) (rules : List PolicyRule)
      (draws later : Draws) (now : ℕ)
      → request_digest request ≡ some digest
      → effect_for e request ≡ require_approval
      → e.approvals ≡ []
      → now < (new_ticket e request draws).expires_at_unix_ms
      → later.now < (new_ticket e request draws).expires_at_unix_ms
      → let last = raced e request digest rules draws now in
        (effect_for last request ≡ effect rules request)
        × ((authorize request_digest last request (some draws.approval_id) later).1
            ≡ ok (record { request_digest = digest }))
  unfolding replace_rules enforce decide authorize get insert effect_for
  approval_survives_new_rules e request digest rules draws later now d needs empty h k =
      ground arith
