-- ===== src/Tools/Policy/Authorize.antt =====
-- `authorize` and `consume_approval` of crates/homebot-tools/src/policy.rs.
use home_bot.Common.{
  ℕ, ◌+◌, Bool, not, ◌&&◌, ◌||◌, Option, none, some, List, map, ◌==◌, ltb, leb, if◌then◌else◌,
  is_none, find, filterb, length, Result, ok, err,
}
use home_bot.Common.Text.{codes}
use home_bot.Common.HashMap.{HashMap, nat_eq, get, insert, remove}
use home_bot.Tools.Contracts.{
  CapabilityRequest, ToolActivity, ApprovalTicket, ApprovalDecision, allow_once, ToolError,
  invalid_approval, approval_required, limit_exceeded, operation_failed, ActivityStatus, updated,
  new_activity,
}
use home_bot.Tools.Policy.Rules.{PolicyEffect, effect}
use home_bot.Tools.Policy.Engine.{
  ApprovalRecord, PolicyEngine, emit_policy_activity, u64_max, Draws, AuthorizedOperation,
  max_pending_approvals_per_operation,
}
use home_bot.Tools.Contracts

abbrev pub values : HashMap ℕ ApprovalRecord → List ApprovalRecord
values = map (λ entry. entry.1)

-- The closures of `authorize`.
abbrev pub is_live : ℕ → ℕ × ApprovalRecord → Bool
is_live now entry = ltb now entry.1.ticket.expires_at_unix_ms

abbrev pub is_same_request : ℕ → ℕ → ℕ → ApprovalRecord → Bool
is_same_request digest operation_id revision entry =
    (entry.request_digest == digest)
    && (entry.ticket.operation_id == operation_id)
    && is_none entry.decision
    && (entry.policy_revision == revision)

abbrev pub is_pending : ℕ → ApprovalRecord → Bool
is_pending operation_id entry =
    (entry.ticket.operation_id == operation_id) && is_none entry.decision

abbrev pub saturating_add : ℕ → ℕ → ℕ
saturating_add a b = if ltb u64_max (a + b) then u64_max else a + b

-- `as_millis().try_into().unwrap_or(u64::MAX)`.
abbrev pub as_u64 : ℕ → ℕ
as_u64 n = if ltb u64_max n then u64_max else n

abbrev pub new_ticket : PolicyEngine → CapabilityRequest → Draws → ApprovalTicket
new_ticket e request draws = record {
  approval_id = draws.approval_id;
  operation_id = request.context.operation_id;
  capability = request.capability;
  action = request.action;
  summary = request.summary;
  destructive = request.destructive;
  expires_at_unix_ms = saturating_add draws.ticket_now (as_u64 e.approval_ttl_ms);
}

-- The branch `RequireApproval` of `authorize` after its `retain`: hand out the ticket that is still
-- open for the request, or make one.
unfoldable pub issue :
    PolicyEngine
    → CapabilityRequest
    → ℕ
    → Draws
    → PolicyEngine × Result ToolError AuthorizedOperation
unfolding emit_policy_activity
issue e request digest draws =
    let operation_id = request.context.operation_id in
    let ticket = new_ticket e request draws in
    elim (find (is_same_request digest operation_id e.policy_revision) (values e.approvals)) [
      | some existing ↦ (e, err (approval_required existing.ticket))
      | none ↦
          if leb max_pending_approvals_per_operation
            (length (filterb (is_pending operation_id) (values e.approvals)))
          then (e, err limit_exceeded)
          else (
            emit_policy_activity
                (record e {
                  approvals =
                      insert draws.approval_id
                        (record {
                          ticket = ticket;
                          request_digest = digest;
                          decision = none;
                          policy_revision = e.policy_revision;
                        })
                        e.approvals;
                })
                request updated (codes "Approval required") draws,
            err (approval_required ticket),
          )
    ]

unfoldable pub require :
    PolicyEngine
    → CapabilityRequest
    → ℕ
    → Draws
    → PolicyEngine × Result ToolError AuthorizedOperation
unfolding issue
require e request digest draws =
    issue (record e { approvals = filterb (is_live draws.now) e.approvals }) request digest draws

-- `authorize` once the effect of the rules has been read.
unfoldable pub enforce :
    PolicyEngine
    → CapabilityRequest
    → ℕ
    → Draws
    → PolicyEffect
    → PolicyEngine × Result ToolError AuthorizedOperation
unfolding require emit_policy_activity
enforce e request digest draws PolicyEffect.deny = (
  emit_policy_activity e request Contracts.ActivityStatus.denied (codes "Capability denied") draws,
  err Contracts.ToolError.denied,
)
enforce e request digest draws PolicyEffect.allow = (e, ok (record { request_digest = digest }))
enforce e request digest draws PolicyEffect.require_approval = require e request digest draws

-- The match of `consume_approval` on the decision.
unfoldable pub redeem :
    PolicyEngine
    → CapabilityRequest
    → ℕ
    → Draws
    → Option ApprovalDecision
    → PolicyEngine × Result ToolError AuthorizedOperation
unfolding emit_policy_activity
redeem e request digest draws (some Contracts.ApprovalDecision.allow_once) =
    (e, ok (record { request_digest = digest }))
redeem e request digest draws (some Contracts.ApprovalDecision.deny) = (
  emit_policy_activity e request Contracts.ActivityStatus.denied (codes "Approval denied") draws,
  err Contracts.ToolError.denied,
)
redeem e request digest draws none = (e, err invalid_approval)

abbrev pub is_unusable : PolicyEngine → CapabilityRequest → ℕ → ℕ → ApprovalRecord → Bool
is_unusable e request digest now entry =
    leb entry.ticket.expires_at_unix_ms now
    || not (entry.request_digest == digest)
    || not (entry.ticket.operation_id == request.context.operation_id)
    || not (entry.policy_revision == e.policy_revision)

unfoldable pub consume_approval :
    PolicyEngine
    → CapabilityRequest
    → ℕ
    → ℕ
    → Draws
    → PolicyEngine × Result ToolError AuthorizedOperation
unfolding redeem
consume_approval e request approval_id digest draws = elim (get approval_id e.approvals) [
  | none ↦ (e, err invalid_approval)
  | some entry ↦
      let after = record e { approvals = remove approval_id e.approvals } in
      if is_unusable e request digest draws.now entry
      then (after, err invalid_approval)
      else redeem after request digest draws entry.decision
]

-- `request_digest` of the source is SHA-256 over the JSON of the request: a parameter, `none` where
-- the encoding fails.
module _ (request_digest : CapabilityRequest → Option ℕ) where
  unfoldable pub authorize :
      PolicyEngine
      → CapabilityRequest
      → Option ℕ
      → Draws
      → PolicyEngine × Result ToolError AuthorizedOperation
  unfolding enforce consume_approval effect
  authorize e request approval_id draws = elim (request_digest request) [
    | none ↦ (e, err operation_failed)
    | some digest ↦ elim approval_id [
      | some approval_id ↦ consume_approval e request approval_id digest draws
      | none ↦ enforce e request digest draws (effect e.rules request)
    ]
  ]
