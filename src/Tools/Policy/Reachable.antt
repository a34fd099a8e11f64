-- ===== src/Tools/Policy/Reachable.antt =====
-- The states that a policy engine reaches (crates/homebot-tools/src/policy.rs) when each call runs as
-- one step.
use home_bot.Common.{
  ℕ, ◌+◌, ◌<◌, ◌≡◌, refl, Option, none, some, List, arith, inl, inr, Option-cases, filterb,
  All-filterb,
}
use home_bot.Common.HashMap.{
  nat_eq, get, AllValues, AllValues-get, AllValues-insert, AllValues-remove,
}
use home_bot.Tools.Contracts.{CapabilityRequest, ApprovalDecision}
use home_bot.Tools.Policy.Rules.{PolicyRule, PolicyEffect, effect, require_approval}
use home_bot.Tools.Policy.Engine.{
  PolicyEngine, ApprovalRecord, Draws, new, replace_rules, decide, u64_modulus,
}
use home_bot.Tools.Policy.Authorize.{
  issue, consume_approval, enforce, authorize, new_ticket, is_live,
}

-- Each call of the engine as one step. Rules are replaced while the revision has room to grow.
pub data Step (request_digest : CapabilityRequest → Option ℕ)
    : PolicyEngine → PolicyEngine → Type 0 where
  replaces :
      (e : PolicyEngine) (rules : List PolicyRule)
      → e.policy_revision + 1 < u64_modulus
      → Step request_digest e (replace_rules e rules)
  decides :
      (e : PolicyEngine) (id : ℕ) (d : ApprovalDecision) (now : ℕ)
      → Step request_digest e (decide e id d now).0
  authorizes :
      (e : PolicyEngine) (request : CapabilityRequest) (id : Option ℕ) (draws : Draws)
      → Step request_digest e (authorize request_digest e request id draws).0

pub data Reach (request_digest : CapabilityRequest → Option ℕ) : PolicyEngine → Type 0 where
  start : (ttl : ℕ) → Reach request_digest (new ttl)
  next :
      {e f : PolicyEngine}
      → Reach request_digest e
      → Step request_digest e f
      → Reach request_digest f

abbrev pub new_record : PolicyEngine → CapabilityRequest → ℕ → Draws → ApprovalRecord
new_record e request digest draws = record {
  ticket = new_ticket e request draws;
  request_digest = digest;
  decision = none;
  policy_revision = e.policy_revision;
}

-- What `decide` keeps: a predicate on the records that does not look at the decision.
pub decide-AllValues {κ} :
    (P : ApprovalRecord → Type κ) (e : PolicyEngine) (id : ℕ) (d : ApprovalDecision) (now : ℕ)
    → ((r : ApprovalRecord) → P r → P (record r { decision = some d }))
    → AllValues P e.approvals
    → AllValues P (decide e id d now).0.approvals
unfolding decide
decide-AllValues P e id d now keep h = elim (Option-cases (get id e.approvals)) [
  | inl g ↦ rw (g, decide) h
  | inr (r, g) ↦
      let kept = keep r (AllValues-get P id e.approvals h g) in
      ground (
        arith,
        AllValues-remove P id e.approvals h,
        AllValues-insert P id (record r { decision = some d }) e.approvals kept h,
      )
]

issue-AllValues {κ} :
    (P : ApprovalRecord → Type κ) (e : PolicyEngine) (request : CapabilityRequest) (digest : ℕ)
    (draws : Draws)
    → P (new_record e request digest draws)
    → AllValues P e.approvals
    → AllValues P (issue e request digest draws).0.approvals
unfolding issue
issue-AllValues P e request digest draws p h = ground (
  arith,
  AllValues-insert P draws.approval_id (new_record e request digest draws) e.approvals p h,
)

enforce-AllValues {κ} :
    (P : ApprovalRecord → Type κ) (e : PolicyEngine) (request : CapabilityRequest) (digest : ℕ)
    (draws : Draws) (wanted : PolicyEffect)
    → (wanted ≡ require_approval → P (new_record e request digest draws))
    → AllValues P e.approvals
    → AllValues P (enforce e request digest draws wanted).0.approvals
unfolding enforce
enforce-AllValues P e request digest draws PolicyEffect.deny p h = h
enforce-AllValues P e request digest draws PolicyEffect.allow p h = h
enforce-AllValues P e request digest draws PolicyEffect.require_approval p h =
    issue-AllValues P (record e { approvals = filterb (is_live draws.now) e.approvals }) request
      digest draws (p refl) (All-filterb (λ entry. P entry.1) (is_live draws.now) e.approvals h)

consume_approval-AllValues {κ} :
    (P : ApprovalRecord → Type κ) (e : PolicyEngine) (request : CapabilityRequest) (id digest : ℕ)
    (draws : Draws)
    → AllValues P e.approvals
    → AllValues P (consume_approval e request id digest draws).0.approvals
unfolding consume_approval
consume_approval-AllValues P e request id digest draws h =
    ground (arith, AllValues-remove P id e.approvals h)

module _ (request_digest : CapabilityRequest → Option ℕ) where
  -- A predicate on records holds after a call of `authorize` where it holds before and for a new record
  -- that the call may make.
  pub authorize-AllValues {κ} :
      (P : ApprovalRecord → Type κ) (e : PolicyEngine) (request : CapabilityRequest) (id : Option ℕ)
      (draws : Draws)
      → ((digest : ℕ)
          → request_digest request ≡ some digest
          → effect e.rules request ≡ require_approval
          → P (new_record e request digest draws))
      → AllValues P e.approvals
      → AllValues P (authorize request_digest e request id draws).0.approvals
  unfolding authorize
  authorize-AllValues P e request none draws p h = elim (Option-cases (request_digest request)) [
    | inl d ↦ rw (d, authorize) h
    | inr (digest, d) ↦
        rw (d, authorize)
          (enforce-AllValues P e request digest draws (effect e.rules request) (p digest d) h)
  ]
  authorize-AllValues P e request (some id) draws p h =
      elim (Option-cases (request_digest request)) [
        | inl d ↦ rw (d, authorize) h
        | inr (digest, d) ↦
            rw (d, authorize) (consume_approval-AllValues P e request id digest draws h)
      ]
