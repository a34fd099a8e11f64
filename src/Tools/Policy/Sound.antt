-- ===== src/Tools/Policy/Sound.antt =====
-- Approvals and rules in the states that the engine reaches (crates/homebot-tools/src/policy.rs).
use home_bot.Common.{ℕ, ◌≤◌, ◌≡◌, refl, sym, ap, ◌∙◌, Option, some, arith, ok, All-map}
use home_bot.Common.HashMap.{nat_eq, AllValues, AllValues-get}
use home_bot.Tools.Contracts.{CapabilityRequest, ApprovalDecision}
use home_bot.Tools.Policy.Rules.{effect, require_approval}
use home_bot.Tools.Policy.Engine.{
  PolicyEngine, ApprovalRecord, AuthorizedOperation, Draws, new, replace_rules, decide,
}
use home_bot.Tools.Policy.Authorize.{authorize}
use home_bot.Tools.Policy.Approvals.{authorize-approval_iff}
use home_bot.Tools.Policy.Reachable.{
  Step, Reach, start, next, replaces, decides, authorizes, decide-AllValues, authorize-AllValues,
}

module _ (request_digest : CapabilityRequest → Option ℕ) where
  -- A record of the current revision was made for a request that needs an approval under the current
  -- rules; no record is of a later revision.
  pub record IsSound (e : PolicyEngine) (r : ApprovalRecord) : Type 0 where
    pub past : r.policy_revision ≤ e.policy_revision
    pub issued :
        r.policy_revision ≡ e.policy_revision
        → (request : CapabilityRequest) × (request_digest request ≡ some r.request_digest)
          × (effect e.rules request ≡ require_approval)
          × (r.ticket.operation_id ≡ request.context.operation_id)

  -- The rules and the revision, which only `replace_rules` changes.
  abbrev SamePolicy : PolicyEngine → PolicyEngine → Type 0
  SamePolicy e f = (f.rules ≡ e.rules) × (f.policy_revision ≡ e.policy_revision)

  decide-SamePolicy :
      (e : PolicyEngine) (id : ℕ) (d : ApprovalDecision) (now : ℕ)
      → SamePolicy e (decide e id d now).0
  unfolding decide
  decide-SamePolicy e id d now = ground arith

  authorize-SamePolicy :
      (e : PolicyEngine) (request : CapabilityRequest) (id : Option ℕ) (draws : Draws)
      → SamePolicy e (authorize request_digest e request id draws).0
  unfolding authorize
  authorize-SamePolicy e request id draws = ground arith

  IsSound-same :
      (e f : PolicyEngine) (r : ApprovalRecord) → SamePolicy e f → IsSound e r → IsSound f r
  IsSound-same e f r (rules, revision) s = record {
    past = rw revision s.past;
    issued = λ now.
        let (request, d, needs, operation) = s.issued (now ∙ revision) in
        (request, d, rw rules needs, operation);
  }

  Step-IsSound :
      {e f : PolicyEngine}
      → Step request_digest e f
      → AllValues (IsSound e) e.approvals
      → AllValues (IsSound f) f.approvals
  unfolding replace_rules
  Step-IsSound (replaces e rules room) h =
      All-map (λ entry s. record { past = omega arith; issued = λ now. absurd (omega arith) })
        e.approvals h
  Step-IsSound (decides e id d now) h =
      All-map (λ entry. IsSound-same e _ entry.1 (decide-SamePolicy e id d now)) _
        (decide-AllValues (IsSound e) e id d now
          (λ r s. record { past = s.past; issued = s.issued }) h)
  Step-IsSound (authorizes e request id draws) h =
      All-map (λ entry. IsSound-same e _ entry.1 (authorize-SamePolicy e request id draws)) _
        (authorize-AllValues request_digest (IsSound e) e request id draws
          (λ digest d needs. record { past = omega arith; issued = λ _. (request, d, needs, refl) })
          h)

  Reach-IsSound : {e : PolicyEngine} → Reach request_digest e → AllValues (IsSound e) e.approvals
  unfolding new
  Reach-IsSound (start ttl) = tt
  Reach-IsSound (next r st) = Step-IsSound st (Reach-IsSound r)

  -- In every state that the engine reaches with each call run as one step and fewer than 2 ^ 64
  -- replacements of the rules, a call of `authorize` that presents an approval and returns an
  -- authorized operation is for a request on which the current rules ask for an approval: an approval
  -- never overrides a rule that denies. This holds for a request whose digest no other request has.
  pub approval_respects_rules :
      {e : PolicyEngine} (request : CapabilityRequest) (id : ℕ) (draws : Draws)
      {op : AuthorizedOperation}
      → Reach request_digest e
      → ((other : CapabilityRequest)
          → request_digest other ≡ request_digest request
          → other ≡ request)
      → (authorize request_digest e request (some id) draws).1 ≡ ok op
      → effect e.rules request ≡ require_approval
  approval_respects_rules {e} request id draws {op} reached unique h =
      let (digest, entry, d, g, usable) =
        (authorize-approval_iff request_digest e request id draws).0 (op, h) in
      let sound = AllValues-get (IsSound e) id e.approvals (Reach-IsSound reached) g in
      let (other, d', needs, _) = sound.issued usable.same_revision in
      let same : other ≡ request = unique other (d' ∙ ap some usable.same_digest ∙ sym d) in
      rw same at needs
