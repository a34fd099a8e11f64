-- ===== src/Tools/Policy/Pending.antt =====
-- The bound on the open approvals of an operation (crates/homebot-tools/src/policy.rs).
use home_bot.Common.{
  ℕ, ◌+◌, ◌≤◌, Option, none, some, [], ◌∷◌, arith, inl, inr, Option-cases, filterb, length,
  if◌then◌else◌,
}
use home_bot.Common.HashMap.{HashMap, nat_eq, get, insert, remove}
use home_bot.Tools.Contracts.{CapabilityRequest, ApprovalDecision}
use home_bot.Tools.Policy.Rules.{effect, PolicyEffect}
use home_bot.Tools.Policy.Engine.{PolicyEngine, ApprovalRecord, Draws, new, replace_rules, decide}
use home_bot.Tools.Policy.Authorize.{
  issue, consume_approval, enforce, authorize, is_pending, values, is_live,
}
use native.Mathlib.Nat.{le_trans}
use home_bot.Tools.Policy.Reachable.{new_record, Reach, start, next, replaces, decides, authorizes}

-- How many approvals of the operation wait for a decision.
abbrev pub pending : ℕ → HashMap ℕ ApprovalRecord → ℕ
pending operation m = length (filterb (is_pending operation) (values m))

pending-remove :
    (operation id : ℕ) (m : HashMap ℕ ApprovalRecord)
    → pending operation (remove id m) ≤ pending operation m
unfolding remove
pending-remove operation id [] = omega arith
pending-remove operation id ((j, r) ∷ m) = ground (arith, pending-remove operation id m)

pending-filterb :
    (operation now : ℕ) (m : HashMap ℕ ApprovalRecord)
    → pending operation (filterb (is_live now) m) ≤ pending operation m
pending-filterb operation now [] = omega arith
pending-filterb operation now ((j, r) ∷ m) = ground (arith, pending-filterb operation now m)

pending-insert :
    (operation id : ℕ) (r : ApprovalRecord) (m : HashMap ℕ ApprovalRecord)
    → pending operation (insert id r m)
      ≤ pending operation m + (if is_pending operation r then 1 else 0)
unfolding insert
pending-insert operation id r [] = ground arith
pending-insert operation id r ((j, s) ∷ m) = ground (arith, pending-insert operation id r m)

abbrev IsBounded : PolicyEngine → Type 0
IsBounded e = (operation : ℕ) → pending operation e.approvals ≤ 4

decide-IsBounded :
    (e : PolicyEngine) (id : ℕ) (d : ApprovalDecision) (now : ℕ)
    → IsBounded e
    → IsBounded (decide e id d now).0
unfolding decide
decide-IsBounded e id d now h operation = elim (Option-cases (get id e.approvals)) [
  | inl g ↦ rw (g, decide) (h operation)
  | inr (r, g) ↦ ground (
    arith,
    h operation,
    pending-remove operation id e.approvals,
    pending-insert operation id (record r { decision = some d }) e.approvals,
  )
]

issue-IsBounded :
    (e : PolicyEngine) (request : CapabilityRequest) (digest : ℕ) (draws : Draws)
    → IsBounded e
    → IsBounded (issue e request digest draws).0
unfolding issue
issue-IsBounded e request digest draws h operation = ground (
  arith,
  h operation,
  pending-insert operation draws.approval_id (new_record e request digest draws) e.approvals,
)

enforce-IsBounded :
    (e : PolicyEngine) (request : CapabilityRequest) (digest : ℕ) (draws : Draws)
    (wanted : PolicyEffect)
    → IsBounded e
    → IsBounded (enforce e request digest draws wanted).0
unfolding enforce
enforce-IsBounded e request digest draws PolicyEffect.deny h = h
enforce-IsBounded e request digest draws PolicyEffect.allow h = h
enforce-IsBounded e request digest draws PolicyEffect.require_approval h =
    issue-IsBounded (record e { approvals = filterb (is_live draws.now) e.approvals }) request
      digest draws (λ o. le_trans (pending-filterb o draws.now e.approvals) (h o))

consume_approval-IsBounded :
    (e : PolicyEngine) (request : CapabilityRequest) (id digest : ℕ) (draws : Draws)
    → IsBounded e
    → IsBounded (consume_approval e request id digest draws).0
unfolding consume_approval
consume_approval-IsBounded e request id digest draws h operation =
    ground (arith, h operation, pending-remove operation id e.approvals)

module _ (request_digest : CapabilityRequest → Option ℕ) where
  authorize-IsBounded :
      (e : PolicyEngine) (request : CapabilityRequest) (id : Option ℕ) (draws : Draws)
      → IsBounded e
      → IsBounded (authorize request_digest e request id draws).0
  unfolding authorize
  authorize-IsBounded e request none draws h = elim (Option-cases (request_digest request)) [
    | inl d ↦ rw (d, authorize) h
    | inr (digest, d) ↦
        rw (d, authorize) (enforce-IsBounded e request digest draws (effect e.rules request) h)
  ]
  authorize-IsBounded e request (some id) draws h = elim (Option-cases (request_digest request)) [
    | inl d ↦ rw (d, authorize) h
    | inr (digest, d) ↦ rw (d, authorize) (consume_approval-IsBounded e request id digest draws h)
  ]

  -- In every state that the engine reaches, an operation has at most four approvals that wait for a
  -- decision.
  pub pending-le-four :
      {e : PolicyEngine} (operation : ℕ)
      → Reach request_digest e
      → pending operation e.approvals ≤ 4
  unfolding new replace_rules
  pending-le-four operation (start ttl) = omega arith
  pending-le-four operation (next r (replaces e rules room)) = pending-le-four operation r
  pending-le-four operation (next r (decides e id d now)) =
      decide-IsBounded e id d now (λ o. pending-le-four o r) operation
  pending-le-four operation (next r (authorizes e request id draws)) =
      authorize-IsBounded e request id draws (λ o. pending-le-four o r) operation
