-- ===== src/Storage/Pairing/Once.antt =====
-- How often a pairing credential is exchanged (crates/homebot-storage/src/lib.rs,
-- `exchange_pairing_credential`).
use home_bot.Common.{
  ◌≡◌, sym, ap, false, ◌&&◌, some, List, [], ◌∷◌, ◌++◌, ℕ, ◌≤◌, arith, Bool-cases, Option-cases,
  Result-cases, inl, inr, ◌==◌, leb, count, count-append, any, find, is_some, is_none, is_none_or,
}
use home_bot.Common.Int.{ℤ, pos, leb_ℤ, saturating_sub}
use home_bot.Common.Text.{Text}
use mathlib.Core.List.{append-nil}
use mathlib.Core.Path.{subst}
use mathlib.Core.Option.{some-injective, none-ne-some}
use home_bot.Storage.Pairing.{
  Exchange, PairingCredential, create_pairing_credential, exchange_pairing_credential,
  validated_device_name, purge_attempts, record_unknown_pairing_attempt, pairing_credential_state,
  pairing_provenance_matches, redeem, count_failure, consume, credential_refused, session_refused,
  new_session, Database,
}
use home_bot.Storage.Pairing.Sessions.{
  authenticate_device_session, revoke_device_session, revoke_rows,
}
use home_bot.Storage.Pairing.Steps.{
  Step, create, exchange, authenticate, revoke, step, redeemed, run, log, succeeded, no_rows,
}
use home_bot.Storage.Pairing.Counts.{
  consumed_issued, count_failure-issued, exchanges_of, has_digest, consume-issued, is_consumed,
  consume-found, fresh_issued,
}

-- No digest has more exchanges than consumed credentials, and each has one credential at most.
abbrev Bounded : List PairingCredential → List Exchange → Type 0
Bounded cs exchanges =
    (digest : ℕ)
    → (count (exchanges_of digest) exchanges ≤ count (is_consumed digest) cs)
      × (count (has_digest digest) cs ≤ 1)

append-Bounded :
    (cs : List PairingCredential) (exchanges : List Exchange) (c : PairingCredential)
    → any (has_digest c.token_digest) cs ≡ false
    → Bounded cs exchanges
    → Bounded (cs ++ c ∷ []) exchanges
append-Bounded cs exchanges c new bounded digest = ground (
  arith,
  count-append (is_consumed digest) cs (c ∷ []),
  count-append (has_digest digest) cs (c ∷ []),
  fresh_issued c.token_digest cs new,
  bounded digest,
)

create-Bounded :
    (db : Database) (exchanges : List Exchange) (owner_id id token proof : ℕ)
    (endpoint origin kind : Text) (created_at_ms expires_at_ms : ℤ)
    → Bounded db.credentials exchanges
    → Bounded
        (create_pairing_credential db owner_id id token proof endpoint origin kind created_at_ms
          expires_at_ms).0.credentials
        exchanges
unfolding create_pairing_credential credential_refused
create-Bounded db exchanges owner_id id token proof endpoint origin kind created_at_ms expires_at_ms
      bounded =
    elim (Bool-cases (leb_ℤ expires_at_ms created_at_ms)) [
      | inl past ↦ rw (create_pairing_credential, past) bounded
      | inr future ↦ elim (Bool-cases (credential_refused db.credentials id token kind)) [
        | inl rejected ↦ rw (create_pairing_credential, future, rejected) bounded
        | inr new ↦
            rw (create_pairing_credential, future, new)
              (append-Bounded db.credentials exchanges _ (ground arith) bounded)
      ]
    ]

count_failure-Bounded :
    (cs : List PairingCredential) (exchanges : List Exchange) (id : ℕ)
    → Bounded cs exchanges
    → Bounded (count_failure id cs) exchanges
count_failure-Bounded cs exchanges id bounded digest =
    ground (arith, count_failure-issued digest id cs, bounded digest)

consume-Bounded :
    (cs : List PairingCredential) (exchanges : List Exchange) (x : Exchange) (c : PairingCredential)
    → find (λ c'. (c'.owner_id == x.owner_id) && (c'.token_digest == x.token_digest)) cs ≡ some c
    → is_some c.consumed_at_ms ≡ false
    → Bounded cs exchanges
    → Bounded (consume c.id x.now_ms cs) (exchanges ++ x ∷ [])
consume-Bounded cs exchanges x c found unused bounded digest = ground (
  arith,
  count-append (exchanges_of digest) exchanges (x ∷ []),
  consume-issued digest c.id x.now_ms cs,
  consume-found x.owner_id x.token_digest x.now_ms cs c found unused,
  bounded digest,
)

redeem-Bounded :
    (before db : Database) (exchanges : List Exchange) (x : Exchange) (name : Text)
    (c : PairingCredential)
    → find (λ c'. (c'.owner_id == x.owner_id) && (c'.token_digest == x.token_digest)) db.credentials
      ≡ some c
    → Bounded before.credentials exchanges
    → Bounded db.credentials exchanges
    → let (db', result) = redeem before db x name c in
      Bounded db'.credentials (exchanges ++ succeeded x result)
unfolding redeem
redeem-Bounded before db exchanges x name c found earlier bounded =
    elim (Bool-cases (
      pairing_provenance_matches x.request_origin x.native_proof_digest c.expected_origin
        c.native_proof_digest)) [
          | inr foreign ↦
              rw (redeem, foreign, append-nil exchanges)
                (count_failure-Bounded db.credentials exchanges c.id bounded)
          | inl matches ↦ elim (Bool-cases (is_some c.consumed_at_ms)) [
            | inl used ↦ rw (redeem, matches, used, append-nil exchanges) earlier
            | inr unused ↦
                elim (Bool-cases
                  (session_refused db.sessions (new_session x name c.endpoint_kind))) [
                    | inl rejected ↦
                        rw (redeem, matches, unused, rejected, append-nil exchanges) earlier
                    | inr new ↦
                        rw (redeem, matches, unused, new)
                          (consume-Bounded db.credentials exchanges x c found unused bounded)
                  ]
          ]
        ]

record_attempt-credentials :
    (db recorded : Database) (token source : ℕ) (now_ms : ℤ)
    → record_unknown_pairing_attempt db token source now_ms ≡ some recorded
    → recorded.credentials ≡ db.credentials
unfolding record_unknown_pairing_attempt
record_attempt-credentials db recorded token source now_ms h =
    elim (Bool-cases (leb 30 (count (λ a. a.source_digest == source) db.attempts))) [
      | inl limited ↦
          absurd (none-ne-some recorded (rw (record_unknown_pairing_attempt, limited) at h))
      | inr free ↦ sym (
          ap (λ d. d.credentials)
            (some-injective _ recorded (rw (record_unknown_pairing_attempt, free) at h)))
    ]

authenticate-credentials :
    (db : Database) (token_digest : ℕ) (now_ms : ℤ)
    → (authenticate_device_session db token_digest now_ms).0.credentials ≡ db.credentials
unfolding authenticate_device_session
authenticate-credentials db token_digest now_ms =
    elim (Option-cases
      (find (λ s. (s.token_digest == token_digest) && is_none s.revoked_at_ms) db.sessions)) [
        | inl unknown ↦ rw (authenticate_device_session, unknown)
        | inr (found, known) ↦
            elim (Bool-cases (
              is_none_or found.last_seen_at_ms
                (λ seen. leb_ℤ seen (saturating_sub now_ms (pos 60000))))) [
                  | inl stale ↦ rw (authenticate_device_session, known, stale)
                  | inr recent ↦ rw (authenticate_device_session, known, recent)
                ]
      ]

revoke-credentials :
    (db : Database) (owner_id device_id : ℕ) (now_ms : ℤ)
    → (revoke_device_session db owner_id device_id now_ms).0.credentials ≡ db.credentials
unfolding revoke_device_session
revoke-credentials db owner_id device_id now_ms =
    elim (Option-cases (
      find (λ s. (s.id == device_id) && (s.owner_id == owner_id))
        (revoke_rows owner_id device_id now_ms db.sessions))) [
          | inl unknown ↦ rw (revoke_device_session, unknown)
          | inr (found, known) ↦ rw (revoke_device_session, known)
        ]

exchange-Bounded :
    (before : Database) (exchanges : List Exchange) (x : Exchange)
    → Bounded before.credentials exchanges
    → let (db', result) = exchange_pairing_credential before x in
      Bounded db'.credentials (exchanges ++ succeeded x result)
unfolding exchange_pairing_credential purge_attempts
exchange-Bounded before exchanges x bounded =
    elim (Result-cases (validated_device_name x.device_name)) [
      | inr (e, bad_name) ↦ rw (exchange_pairing_credential, bad_name, append-nil exchanges) bounded
      | inl (name, named) ↦
          let db = purge_attempts (saturating_sub x.now_ms x.rate_window_ms) before in
          elim (Option-cases (
            find (λ c. (c.owner_id == x.owner_id) && (c.token_digest == x.token_digest))
              db.credentials)) [
                | inl unknown ↦
                    elim (Option-cases
                      (record_unknown_pairing_attempt db x.token_digest x.source_digest x.now_ms)) [
                        | inl limited ↦
                            rw
                              (
                                exchange_pairing_credential,
                                named,
                                unknown,
                                limited,
                                append-nil exchanges,
                              )
                              bounded
                        | inr (recorded, attempt) ↦
                            rw
                              (
                                exchange_pairing_credential,
                                named,
                                unknown,
                                attempt,
                                append-nil exchanges,
                              )
                              (subst (λ cs. Bounded cs exchanges)
                                (sym (
                                  record_attempt-credentials db recorded x.token_digest
                                    x.source_digest x.now_ms attempt))
                                bounded)
                      ]
                | inr (c, found) ↦
                    elim (Result-cases (
                      pairing_credential_state c.consumed_at_ms c.expires_at_ms c.failed_attempts
                        x.now_ms)) [
                          | inr (e, unusable) ↦
                              rw
                                (
                                  exchange_pairing_credential,
                                  named,
                                  found,
                                  unusable,
                                  append-nil exchanges,
                                )
                                bounded
                          | inl (_, usable) ↦
                              rw (exchange_pairing_credential, named, found, usable)
                                (redeem-Bounded before db exchanges x name c found bounded bounded)
                        ]
              ]
    ]

run-Bounded : (steps : List Step) → Bounded (run steps no_rows).credentials (log steps no_rows)
unfolding run log step redeemed
run-Bounded [] = λ digest. ground arith
run-Bounded
      (create owner_id id token proof endpoint origin kind created_at_ms expires_at_ms ∷ steps) =
    rw (append-nil (log steps no_rows)) (
      create-Bounded (run steps no_rows) (log steps no_rows) owner_id id token proof endpoint origin
        kind created_at_ms expires_at_ms (run-Bounded steps))
run-Bounded (exchange x ∷ steps) =
    exchange-Bounded (run steps no_rows) (log steps no_rows) x (run-Bounded steps)
run-Bounded (authenticate token_digest now_ms ∷ steps) =
    rw
      (
        append-nil (log steps no_rows),
        authenticate-credentials (run steps no_rows) token_digest now_ms,
      )
      (run-Bounded steps)
run-Bounded (revoke owner_id device_id now_ms ∷ steps) =
    rw
      (
        append-nil (log steps no_rows),
        revoke-credentials (run steps no_rows) owner_id device_id now_ms,
      )
      (run-Bounded steps)

-- Of all calls on an empty database that create credentials, exchange them, authenticate and revoke
-- sessions, in any order: at most one exchange succeeds for a credential's token.
pub exchange-once :
    (steps : List Step) (token_digest : ℕ)
    → count (λ x. x.token_digest == token_digest) (log steps no_rows) ≤ 1
exchange-once steps token_digest =
    let (redeemed, issued) = run-Bounded steps token_digest in
    omega (arith, redeemed, issued, consumed_issued token_digest (run steps no_rows).credentials)
