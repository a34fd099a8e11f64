-- ===== src/Tools/Policy/Approvals.antt =====
-- What an approval is good for (crates/homebot-tools/src/policy.rs: `decide`, `consume_approval`).
use home_bot.Common.{
  ℕ, ◌<◌, ◌≡◌, refl, ap, ◌∙◌, ◌≢◌, ◌↔◌, Option, none, some, arith, inl, inr, Option-cases, ok, err,
}
use home_bot.Common.HashMap.{nat_eq, get, insert, remove, get-insert, get-remove}
use home_bot.Tools.Contracts.{CapabilityRequest, ApprovalDecision, allow_once, invalid_approval}
use home_bot.Tools.Policy.Engine.{
  PolicyEngine, ApprovalRecord, AuthorizedOperation, Draws, decide, emit_policy_activity,
}
use home_bot.Tools.Policy.Authorize.{consume_approval, authorize, redeem}

-- The conditions under which the record of an approval lets a request through.
pub record IsUsable (e : PolicyEngine) (request : CapabilityRequest) (digest now : ℕ)
    (entry : ApprovalRecord) : Type 0 where
  pub unexpired : now < entry.ticket.expires_at_unix_ms
  pub same_digest : entry.request_digest ≡ digest
  pub same_operation : entry.ticket.operation_id ≡ request.context.operation_id
  pub same_revision : entry.policy_revision ≡ e.policy_revision
  pub allowed : entry.decision ≡ some allow_once

consume_approval-ok :
    (e : PolicyEngine) (request : CapabilityRequest) (id digest : ℕ) (draws : Draws)
    (entry : ApprovalRecord)
    → get id e.approvals ≡ some entry
    → IsUsable e request digest draws.now entry
    → (consume_approval e request id digest draws).1 ≡ ok (record { request_digest = digest })
unfolding consume_approval
consume_approval-ok e request id digest draws entry g u = ground arith

consume_approval-IsUsable :
    (e : PolicyEngine) (request : CapabilityRequest) (id digest : ℕ) (draws : Draws)
    (entry : ApprovalRecord) {op : AuthorizedOperation}
    → get id e.approvals ≡ some entry
    → (consume_approval e request id digest draws).1 ≡ ok op
    → IsUsable e request digest draws.now entry
unfolding consume_approval
consume_approval-IsUsable e request id digest draws entry g h = ground arith

consume_approval-missing :
    (e : PolicyEngine) (request : CapabilityRequest) (id digest : ℕ) (draws : Draws)
    → get id e.approvals ≡ none
    → consume_approval e request id digest draws ≡ (e, err invalid_approval)
unfolding consume_approval
consume_approval-missing e request id digest draws g = ground arith

decide-ok :
    (e : PolicyEngine) (id now : ℕ) (d : ApprovalDecision)
    → (decide e id d now).1 ≡ ok tt
    → (entry : ApprovalRecord) × (get id e.approvals ≡ some entry)
      × ((decide e id d now).0
          ≡ record e { approvals = insert id (record entry { decision = some d }) e.approvals })
unfolding decide
decide-ok e id now d h = elim (Option-cases (get id e.approvals)) [
  | inl g ↦ cc (rw (g, decide) at h)
  | inr (entry, g) ↦ (entry, g, ground arith)
]

decide-decided :
    (e : PolicyEngine) (id now : ℕ) (d d' : ApprovalDecision) (entry : ApprovalRecord)
    → get id e.approvals ≡ some entry
    → entry.decision ≡ some d
    → decide e id d' now ≡ (record e { approvals = remove id e.approvals }, err invalid_approval)
unfolding decide
decide-decided e id now d d' entry g h = ground arith

get-insert_self :
    (id : ℕ) (entry : ApprovalRecord) (e : PolicyEngine)
    → get id (insert id entry e.approvals) ≡ some entry
get-insert_self id entry e = ground (arith, get-insert id id entry e.approvals)

get-remove_self : (id : ℕ) (e : PolicyEngine) → get id (remove id e.approvals) ≡ none
get-remove_self id e = ground (arith, get-remove id id e.approvals)

module _ (request_digest : CapabilityRequest → Option ℕ) where
  authorize-missing :
      (e : PolicyEngine) (request : CapabilityRequest) (id : ℕ) (draws : Draws)
      → get id e.approvals ≡ none
      → request_digest request ≢ none
      → authorize request_digest e request (some id) draws ≡ (e, err invalid_approval)
  unfolding authorize
  authorize-missing e request id draws g k =
      ground (arith, λ (digest : ℕ). consume_approval-missing e request id digest draws g)

  -- A call of `authorize` with an approval returns an authorized operation exactly when the request has
  -- a digest and the engine holds a record for the approval that has not expired, was made for that
  -- digest, that operation and the current revision of the rules, and was decided `AllowOnce`.
  pub authorize-approval_iff :
      (e : PolicyEngine) (request : CapabilityRequest) (id : ℕ) (draws : Draws)
      → ((op : AuthorizedOperation) × ((authorize request_digest e request (some id) draws).1
            ≡ ok op))
        ↔ ((digest : ℕ) × (entry : ApprovalRecord) × (request_digest request ≡ some digest)
            × (get id e.approvals ≡ some entry)
            × IsUsable e request digest draws.now entry)
  unfolding authorize
  authorize-approval_iff e request id draws = (sound, complete)
    where
      sound :
          ((op : AuthorizedOperation) × ((authorize request_digest e request (some id) draws).1
              ≡ ok op))
          → ((digest : ℕ) × (entry : ApprovalRecord) × (request_digest request ≡ some digest)
              × (get id e.approvals ≡ some entry)
              × IsUsable e request digest draws.now entry)
      sound (op, h) = elim (Option-cases (request_digest request)) [
        | inl d ↦ cc (rw (d, authorize) at h)
        | inr (digest, d) ↦ elim (Option-cases (get id e.approvals)) [
          | inl g ↦ cc (rw (d, authorize) at h)
          | inr (entry, g) ↦ (
            digest,
            entry,
            d,
            g,
            consume_approval-IsUsable e request id digest draws entry g (rw (d, authorize) at h),
          )
        ]
      ]

      complete :
          ((digest : ℕ) × (entry : ApprovalRecord) × (request_digest request ≡ some digest)
            × (get id e.approvals ≡ some entry)
            × IsUsable e request digest draws.now entry)
          → ((op : AuthorizedOperation) × ((authorize request_digest e request (some id) draws).1
                ≡ ok op))
      complete (digest, entry, d, g, u) = (
        record { request_digest = digest },
        rw (d, authorize) (consume_approval-ok e request id digest draws entry g u),
      )

  -- An approval is spent by the first call that presents it with a request that has a digest, whatever
  -- that call returns: the same approval presented again, with any request that has a digest, is
  -- invalid and changes nothing.
  pub authorize_twice :
      (e : PolicyEngine) (first second : CapabilityRequest) (id : ℕ) (draws later : Draws)
      → request_digest first ≢ none
      → request_digest second ≢ none
      → let after = (authorize request_digest e first (some id) draws).0 in
        authorize request_digest after second (some id) later ≡ (after, err invalid_approval)
  unfolding authorize consume_approval redeem emit_policy_activity
  authorize_twice e first second id draws later h k = ground (arith, get-remove id id e.approvals)

  -- A second decision on an approval is refused and revokes it: where one decision was accepted, the
  -- next one is an error, and a call that presents the approval afterwards is not let through.
  pub decide_twice_revokes :
      (e : PolicyEngine) (id now later : ℕ) (d d' : ApprovalDecision) (request : CapabilityRequest)
      (draws : Draws)
      → (decide e id d now).1 ≡ ok tt
      → request_digest request ≢ none
      → let twice = decide (decide e id d now).0 id d' later in
        (twice.1 ≡ err invalid_approval)
        × ((authorize request_digest twice.0 request (some id) draws).1 ≡ err invalid_approval)
  unfolding authorize
  decide_twice_revokes e id now later d d' request draws h k =
      let (entry, g, after) = decide-ok e id now d h in
      let again =
        decide-decided (decide e id d now).0 id later d d' (record entry { decision = some d })
          (rw after (get-insert_self id (record entry { decision = some d }) e)) refl in
      (
        ap (λ r. r.1) again,
        ap (λ r. r.1)
            (authorize-missing _ request id draws
              (ap (λ r. get id r.0.approvals) again ∙ get-remove_self id (decide e id d now).0) k),
      )
