-- ===== src/Secrets/Use.antt =====
-- crates/homebot-tools/src/secret.rs: a tool's use of a secret, which the policy has to let through.
-- The text of a Uuid is the parameter `uuid_text`.
use home_bot.Common.{
  ◌≡◌, refl, ap, ◌∙◌, inl, inr, Bool, false, not, ◌&&◌, ◌||◌, Option, none, some, ◌++◌, arith, ℕ,
  ok, err, Result, if◌then◌else◌, Bool-cases, Result-cases, ◌==◌, leb, ◌>>=◌, all, map_err, refused,
  ok_unique,
}
use home_bot.Common.Text.{Text, is_ascii_alphanumeric, byte_len, codes, trim}
use home_bot.Secrets.Vault.{SecretStoreError, SecretVault}
use home_bot.Tools.Contracts.{CapabilityRequest, OperationContext, ToolError, secret_use}
use home_bot.Tools.Policy.Engine.{PolicyEngine, Draws, AuthorizedOperation, ApprovalRecord}
use home_bot.Tools.Policy.Authorize.{authorize, enforce, require, issue}
use home_bot.Tools.Policy.Rules.{effect, PolicyEffect}
use home_bot.Tools.Policy.Approvals.{authorize-approval_iff, IsUsable}
use home_bot.Common.HashMap.{get, nat_eq}

unfoldable pub map_store_error : SecretStoreError → ToolError
map_store_error SecretStoreError.invalid_reference =
    ToolError.invalid_request (codes "secret reference is invalid")
map_store_error SecretStoreError.locked = ToolError.unavailable
map_store_error SecretStoreError.unavailable = ToolError.unavailable
map_store_error SecretStoreError.not_found = ToolError.unavailable
map_store_error SecretStoreError.operation_failed = ToolError.unavailable

abbrev is_purpose_byte : ℕ → Bool
is_purpose_byte b = is_ascii_alphanumeric b || (b == b'_') || (b == b'-') || (b == b'.')

unfoldable pub is_purpose : Text → Bool
unfolding is_ascii_alphanumeric
is_purpose purpose =
    not (byte_len purpose == 0) && leb (byte_len purpose) 64 && all is_purpose_byte purpose

module _ (uuid_text : ℕ → Text) where
  unfoldable pub locator_for : ℕ → Text
  locator_for reference_id = codes "homebot:" ++ uuid_text reference_id

  unfoldable pub secret_request : OperationContext → ℕ → Text → CapabilityRequest
  secret_request context reference_id purpose = record {
    context = context;
    capability = secret_use;
    action = codes "secret.use." ++ purpose;
    canonical_resource = codes "secret:" ++ uuid_text reference_id;
    summary = codes "Use a stored secret for " ++ purpose;
    destructive = false;
  }

  -- The request is for the use of a secret for a purpose.
  pub record IsUseOf (context : OperationContext) (reference_id : ℕ) (purpose : Text)
      (request : CapabilityRequest) : Type 0 where
    pub for_context : request.context ≡ context
    pub for_use : request.capability ≡ secret_use
    pub for_purpose : request.action ≡ codes "secret.use." ++ purpose
    pub for_secret : request.canonical_resource ≡ codes "secret:" ++ uuid_text reference_id
    pub harmless : request.destructive ≡ false

  secret_request-IsUseOf :
      (context : OperationContext) (reference_id : ℕ) (purpose : Text)
      → IsUseOf context reference_id purpose (secret_request context reference_id purpose)
  unfolding secret_request
  secret_request-IsUseOf context reference_id purpose = record {
    for_context = refl;
    for_use = refl;
    for_purpose = refl;
    for_secret = refl;
    harmless = refl;
  }

  module _ (request_digest : CapabilityRequest → Option ℕ) {S : Type 0}
      (vault : SecretVault S) where
    unfoldable pub resolve_for_tool :
        PolicyEngine
        → S
        → OperationContext
        → ℕ
        → Text
        → Option ℕ
        → Draws
        → PolicyEngine × Result ToolError Text
    unfolding is_purpose secret_request locator_for map_store_error authorize
    resolve_for_tool e s context reference_id purpose approval_id draws =
        if not (is_purpose (trim purpose))
        then (
          e,
          err (ToolError.invalid_request (codes "secret purpose must be a bounded identifier")),
        )
        else let request = secret_request context reference_id (trim purpose) in
          let (e', authorized) = authorize request_digest e request approval_id draws in
          (
            e',
            authorized >>= λ _.
                map_err map_store_error (vault.resolve s (locator_for reference_id)),
          )

    allow_effect :
        (e : PolicyEngine) (request : CapabilityRequest) (draws : Draws) {o : AuthorizedOperation}
        → (authorize request_digest e request none draws).1 ≡ ok o
        → effect e.rules request ≡ PolicyEffect.allow
    unfolding authorize enforce require issue
    allow_effect e request draws h = ground arith

    -- The rules allow the request, or an approval that can be used was made for it.
    abbrev pub IsPermitted : PolicyEngine → CapabilityRequest → Option ℕ → Draws → Type 0
    IsPermitted e request none draws = effect e.rules request ≡ PolicyEffect.allow
    IsPermitted e request (some id) draws =
        (digest : ℕ) × (entry : ApprovalRecord) × (request_digest request ≡ some digest)
        × (get id e.approvals ≡ some entry)
        × IsUsable e request digest draws.now entry

    authorize-IsPermitted :
        (e : PolicyEngine) (request : CapabilityRequest) (approval_id : Option ℕ) (draws : Draws)
        {o : AuthorizedOperation}
        → (authorize request_digest e request approval_id draws).1 ≡ ok o
        → IsPermitted e request approval_id draws
    authorize-IsPermitted e request none draws h = allow_effect e request draws h
    authorize-IsPermitted e request (some id) draws {o} h =
        (authorize-approval_iff request_digest e request id draws).0 (o, h)

    -- A tool gets a secret only where a request that names the calling operation, the capability
    -- `secret.use`, the purpose, trimmed, and the secret's reference is permitted: the rules in force
    -- allow it, or the tool presents an approval that the user allowed for a request with the same
    -- digest and of the same operation, and that has neither expired nor been outdated by new rules.
    -- The tool gets the value that the vault has under `homebot:` and the reference.
    pub resolve_for_tool-IsPermitted :
        (e : PolicyEngine) (s : S) (context : OperationContext) (reference_id : ℕ) (purpose : Text)
        (approval_id : Option ℕ) (draws : Draws) {secret : Text}
        → (resolve_for_tool e s context reference_id purpose approval_id draws).1 ≡ ok secret
        → (request : CapabilityRequest) × IsUseOf context reference_id (trim purpose) request
          × IsPermitted e request approval_id draws
          × (vault.resolve s (codes "homebot:" ++ uuid_text reference_id) ≡ ok secret)
    unfolding resolve_for_tool locator_for
    resolve_for_tool-IsPermitted e s context reference_id purpose approval_id draws h =
        let request = secret_request context reference_id (trim purpose) in
        elim (Bool-cases (is_purpose (trim purpose))) [
          | inr bad ↦ absurd (refused _ refl (rw (resolve_for_tool, bad) at h))
          | inl fine ↦
              elim (Result-cases (authorize request_digest e request approval_id draws).1) [
                | inr (x, p) ↦ absurd (refused _ refl (rw (resolve_for_tool, fine, p) at h))
                | inl (o, p) ↦ elim (Result-cases (vault.resolve s (locator_for reference_id))) [
                  | inr (x, q) ↦ absurd (refused _ refl (rw (resolve_for_tool, fine, p, q) at h))
                  | inl (value, q) ↦ (
                    request,
                    secret_request-IsUseOf context reference_id (trim purpose),
                    authorize-IsPermitted e request approval_id draws p,
                    q ∙ ap ok (ok_unique _ refl (rw (resolve_for_tool, fine, p, q) at h)),
                  )
                ]
              ]
        ]
