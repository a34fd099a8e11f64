-- ===== src/Tools/Policy/Engine.antt =====
-- crates/homebot-tools/src/policy.rs: the state of `PolicyEngine` and its calls.
use home_bot.Common.{
  ℕ, ◌+◌, ◌%◌, ◌||◌, Option, none, some, List, [], ◌∷◌, ◌++◌, leb, if◌then◌else◌, is_some, Result,
  ok, err,
}
use home_bot.Common.Text.{Text}
use home_bot.Common.HashMap.{HashMap, nat_eq, get, insert, remove}
use home_bot.Tools.Contracts.{
  CapabilityRequest, ToolActivity, ApprovalTicket, ApprovalDecision, allow_once, ToolError,
  invalid_approval, approval_required, limit_exceeded, operation_failed, ActivityStatus, updated,
  new_activity,
}
use home_bot.Tools.Policy.Rules.{PolicyEffect, PolicyRule, effect}
use home_bot.Tools.Contracts

abbrev pub max_pending_approvals_per_operation : ℕ
max_pending_approvals_per_operation = 4

abbrev pub u64_modulus : ℕ
u64_modulus = 18446744073709551616

abbrev pub u64_max : ℕ
u64_max = 18446744073709551615

-- The digest `[u8; 32]` is a number.
pub record ApprovalRecord : Type 0 where
  pub ticket : ApprovalTicket
  pub request_digest : ℕ
  pub decision : Option ApprovalDecision
  pub policy_revision : ℕ

pub record AuthorizedOperation : Type 0 where
  pub request_digest : ℕ

-- `activities` is what a recording sink holds, oldest first.
pub record PolicyEngine : Type 0 where
  pub rules : List PolicyRule
  pub approvals : HashMap ℕ ApprovalRecord
  pub policy_revision : ℕ
  pub approval_ttl_ms : ℕ
  pub activities : List ToolActivity

-- What one call draws: the time at its first reading of the clock and at the ticket's, the identifier
-- of a new ticket, and those of an activity.
pub record Draws : Type 0 where
  pub now : ℕ
  pub ticket_now : ℕ
  pub approval_id : ℕ
  pub activity_id : ℕ
  pub activity_now : ℕ

unfoldable pub new : ℕ → PolicyEngine
new approval_ttl_ms = record {
  rules = [];
  approvals = [];
  policy_revision = 0;
  approval_ttl_ms = approval_ttl_ms;
  activities = [];
}

-- `fetch_add` on an `AtomicU64` wraps.
unfoldable pub replace_rules : PolicyEngine → List PolicyRule → PolicyEngine
replace_rules e rules = record e {
  rules = rules;
  policy_revision = (e.policy_revision + 1) % u64_modulus;
}

unfoldable pub effect_for : PolicyEngine → CapabilityRequest → PolicyEffect
unfolding effect
effect_for e request = effect e.rules request

-- The entry of `decide` is held by `get_mut`: a decision is written in place.
unfoldable pub decide :
    PolicyEngine → ℕ → ApprovalDecision → ℕ → PolicyEngine × Result ToolError (Unit {0})
decide e approval_id decision now = elim (get approval_id e.approvals) [
  | none ↦ (e, err invalid_approval)
  | some entry ↦
      if leb entry.ticket.expires_at_unix_ms now || is_some entry.decision
      then (record e { approvals = remove approval_id e.approvals }, err invalid_approval)
      else (
        record e {
          approvals = insert approval_id (record entry { decision = some decision }) e.approvals;
        },
        ok tt,
      )
]

unfoldable pub emit_policy_activity :
    PolicyEngine → CapabilityRequest → ActivityStatus → Text → Draws → PolicyEngine
unfolding new_activity
emit_policy_activity e request status title draws = record e {
  activities =
      e.activities
      ++ new_activity draws.activity_id draws.activity_now request.context.operation_id
          Contracts.ActivityKind.approval status title (some request.summary)
        ∷ [];
}
