-- ===== src/Storage/Pairing/Revoked.antt =====
-- A revoked device session (crates/homebot-storage/src/lib.rs, `revoke_device_session`) after any
-- further calls.
use home_bot.Common.{
  ◌≡◌, refl, ◌∙◌, true, false, ◌&&◌, some, List, [], ◌∷◌, ℕ, arith, Bool-cases, Option-cases,
  Result-cases, inl, inr, ◌==◌, leb, count, any, all, find, is_some, is_none, is_none_or,
  is_some_and, ok, refused,
}
use home_bot.Common.Int.{ℤ, pos, leb_ℤ, saturating_sub}
use home_bot.Common.Text.{Text}
use mathlib.Core.Option.{some-injective, none-ne-some}
use mathlib.Core.Path.{subst}
use home_bot.Storage.Pairing.{
  Exchange, PairingCredential, DeviceSession, create_pairing_credential,
  exchange_pairing_credential, validated_device_name, purge_attempts,
  record_unknown_pairing_attempt, pairing_credential_state, pairing_provenance_matches, redeem,
  credential_refused, session_refused, new_session, Database,
}
use home_bot.Storage.Pairing.Sessions.{
  authenticate_device_session, revoke_device_session, device_session_is_active, revoke_rows,
}
use home_bot.Storage.Pairing.Steps.{Step, create, exchange, authenticate, revoke, step, run}
use home_bot.Storage.Pairing.Gone.{
  is_device, is_ended, IsGone, touch-IsGone, revoke_rows-any, revoke_rows-all, revoke_rows-ended,
  append-IsGone, find_ended,
}

module _ (owner_id device_id : ℕ) where
  redeem-IsGone :
      (before db : Database) (x : Exchange) (name : Text) (c : PairingCredential)
      → IsGone owner_id device_id before.sessions
      → IsGone owner_id device_id db.sessions
      → IsGone owner_id device_id (redeem before db x name c).0.sessions
  unfolding redeem session_refused
  redeem-IsGone before db x name c earlier gone =
      elim (Bool-cases (
        pairing_provenance_matches x.request_origin x.native_proof_digest c.expected_origin
          c.native_proof_digest)) [
            | inr foreign ↦ rw (redeem, foreign) gone
            | inl matches ↦ elim (Bool-cases (is_some c.consumed_at_ms)) [
              | inl used ↦ rw (redeem, matches, used) earlier
              | inr unused ↦
                  elim (Bool-cases
                    (session_refused db.sessions (new_session x name c.endpoint_kind))) [
                      | inl rejected ↦ rw (redeem, matches, unused, rejected) earlier
                      | inr new ↦
                          rw (redeem, matches, unused, new)
                            (append-IsGone owner_id device_id db.sessions
                              (new_session x name c.endpoint_kind) (ground arith) gone)
                    ]
            ]
          ]

  record_attempt-IsGone :
      (db recorded : Database) (token source : ℕ) (now_ms : ℤ)
      → record_unknown_pairing_attempt db token source now_ms ≡ some recorded
      → IsGone owner_id device_id db.sessions
      → IsGone owner_id device_id recorded.sessions
  unfolding record_unknown_pairing_attempt
  record_attempt-IsGone db recorded token source now_ms h gone =
      elim (Bool-cases (leb 30 (count (λ a. a.source_digest == source) db.attempts))) [
        | inl limited ↦
            absurd (none-ne-some recorded (rw (record_unknown_pairing_attempt, limited) at h))
        | inr free ↦
            subst (λ d. IsGone owner_id device_id d.sessions)
              (some-injective _ recorded (rw (record_unknown_pairing_attempt, free) at h)) gone
      ]

  exchange-IsGone :
      (before : Database) (x : Exchange)
      → IsGone owner_id device_id before.sessions
      → IsGone owner_id device_id (exchange_pairing_credential before x).0.sessions
  unfolding exchange_pairing_credential purge_attempts
  exchange-IsGone before x gone = elim (Result-cases (validated_device_name x.device_name)) [
    | inr (e, bad_name) ↦ rw (exchange_pairing_credential, bad_name) gone
    | inl (name, named) ↦
        let db = purge_attempts (saturating_sub x.now_ms x.rate_window_ms) before in
        elim (Option-cases (
          find (λ c. (c.owner_id == x.owner_id) && (c.token_digest == x.token_digest))
            db.credentials)) [
              | inl unknown ↦
                  elim (Option-cases
                    (record_unknown_pairing_attempt db x.token_digest x.source_digest x.now_ms)) [
                      | inl limited ↦ rw (exchange_pairing_credential, named, unknown, limited) gone
                      | inr (recorded, attempt) ↦
                          rw (exchange_pairing_credential, named, unknown, attempt)
                            (record_attempt-IsGone db recorded x.token_digest x.source_digest
                              x.now_ms attempt gone)
                    ]
              | inr (c, found) ↦
                  elim (Result-cases (
                    pairing_credential_state c.consumed_at_ms c.expires_at_ms c.failed_attempts
                      x.now_ms)) [
                        | inr (e, unusable) ↦
                            rw (exchange_pairing_credential, named, found, unusable) gone
                        | inl (_, usable) ↦
                            rw (exchange_pairing_credential, named, found, usable)
                              (redeem-IsGone before db x name c gone gone)
                      ]
            ]
  ]

  create-IsGone :
      (db : Database) (owner id token proof : ℕ) (endpoint origin kind : Text)
      (created_at_ms expires_at_ms : ℤ)
      → IsGone owner_id device_id db.sessions
      → IsGone owner_id device_id
          (create_pairing_credential db owner id token proof endpoint origin kind created_at_ms
            expires_at_ms).0.sessions
  unfolding create_pairing_credential
  create-IsGone db owner id token proof endpoint origin kind created_at_ms expires_at_ms gone =
      elim (Bool-cases (leb_ℤ expires_at_ms created_at_ms)) [
        | inl past ↦ rw (create_pairing_credential, past) gone
        | inr future ↦ elim (Bool-cases (credential_refused db.credentials id token kind)) [
          | inl rejected ↦ rw (create_pairing_credential, future, rejected) gone
          | inr new ↦ rw (create_pairing_credential, future, new) gone
        ]
      ]

  authenticate-IsGone :
      (db : Database) (token_digest : ℕ) (now_ms : ℤ)
      → IsGone owner_id device_id db.sessions
      → IsGone owner_id device_id (authenticate_device_session db token_digest now_ms).0.sessions
  unfolding authenticate_device_session
  authenticate-IsGone db token_digest now_ms gone =
      elim (Option-cases
        (find (λ s. (s.token_digest == token_digest) && is_none s.revoked_at_ms) db.sessions)) [
          | inl unknown ↦ rw (authenticate_device_session, unknown) gone
          | inr (found, known) ↦
              elim (Bool-cases (
                is_none_or found.last_seen_at_ms
                  (λ seen. leb_ℤ seen (saturating_sub now_ms (pos 60000))))) [
                    | inl stale ↦
                        rw (authenticate_device_session, known, stale)
                          (touch-IsGone owner_id device_id found.id now_ms db.sessions gone)
                    | inr recent ↦ rw (authenticate_device_session, known, recent) gone
                  ]
        ]

  revoke-IsGone :
      (db : Database) (owner device : ℕ) (now_ms : ℤ)
      → IsGone owner_id device_id db.sessions
      → IsGone owner_id device_id (revoke_device_session db owner device now_ms).0.sessions
  unfolding revoke_device_session
  revoke-IsGone db owner device now_ms (taken, ended) =
      elim (Option-cases (
        find (λ s. (s.id == device) && (s.owner_id == owner))
          (revoke_rows owner device now_ms db.sessions))) [
            | inl unknown ↦ rw (revoke_device_session, unknown) (taken, ended)
            | inr (found, known) ↦
                rw (revoke_device_session, known)
                  (
                    revoke_rows-any owner_id device_id owner device now_ms db.sessions ∙ taken,
                    revoke_rows-all owner_id device_id owner device now_ms db.sessions ended,
                  )
          ]

  run-IsGone :
      (steps : List Step) (db : Database)
      → IsGone owner_id device_id db.sessions
      → IsGone owner_id device_id (run steps db).sessions
  unfolding run step
  run-IsGone [] db gone = gone
  run-IsGone (create owner id token proof endpoint origin kind created_at_ms expires_at_ms ∷ steps)
        db gone =
      create-IsGone (run steps db) owner id token proof endpoint origin kind created_at_ms
        expires_at_ms (run-IsGone steps db gone)
  run-IsGone (exchange x ∷ steps) db gone =
      exchange-IsGone (run steps db) x (run-IsGone steps db gone)
  run-IsGone (authenticate token_digest now_ms ∷ steps) db gone =
      authenticate-IsGone (run steps db) token_digest now_ms (run-IsGone steps db gone)
  run-IsGone (revoke owner device now_ms ∷ steps) db gone =
      revoke-IsGone (run steps db) owner device now_ms (run-IsGone steps db gone)

  found_taken :
      (sessions : List DeviceSession) (found : DeviceSession)
      → find (is_device owner_id device_id) sessions ≡ some found
      → any (λ s. s.id == device_id) sessions ≡ true
  found_taken [] found h = absurd (none-ne-some found h)
  found_taken (s ∷ sessions) found h = elim (Bool-cases ((is_device owner_id device_id) s)) [
    | inl hit ↦ ground arith
    | inr miss ↦ ground (arith, found_taken sessions found (rw miss at h))
  ]

  revoked-IsGone :
      (db : Database) (now_ms : ℤ) (session : DeviceSession)
      → (revoke_device_session db owner_id device_id now_ms).1 ≡ ok session
      → IsGone owner_id device_id (revoke_device_session db owner_id device_id now_ms).0.sessions
  unfolding revoke_device_session
  revoked-IsGone db now_ms session h =
      elim (Option-cases
        (find (is_device owner_id device_id) (revoke_rows owner_id device_id now_ms db.sessions))) [
          | inl unknown ↦ absurd (refused _ refl (rw (revoke_device_session, unknown) at h))
          | inr (found, known) ↦
              rw (revoke_device_session, known)
                (
                  found_taken (revoke_rows owner_id device_id now_ms db.sessions) found known,
                  revoke_rows-ended owner_id device_id now_ms db.sessions,
                )
        ]

  inactive :
      (sessions : List DeviceSession)
      → all (is_ended owner_id device_id) sessions ≡ true
      → any
          (λ s. (s.id == device_id) && (s.owner_id == owner_id) && is_none s.revoked_at_ms)
          sessions
        ≡ false
  inactive [] ended = refl
  inactive (s ∷ sessions) ended = ground (arith, inactive sessions)

  not_authenticated :
      (db : Database) (token_digest : ℕ) (now_ms : ℤ)
      → IsGone owner_id device_id db.sessions
      → is_some_and
          (authenticate_device_session db token_digest now_ms).1
          (is_device owner_id device_id)
        ≡ false
  unfolding authenticate_device_session
  not_authenticated db token_digest now_ms (taken, ended) =
      elim (Option-cases
        (find (λ s. (s.token_digest == token_digest) && is_none s.revoked_at_ms) db.sessions)) [
          | inl unknown ↦ rw (authenticate_device_session, unknown)
          | inr (found, known) ↦
              let (live, over) =
                find_ended owner_id device_id
                  (λ s. (s.token_digest == token_digest) && is_none s.revoked_at_ms) db.sessions
                  found known ended in
              rw (authenticate_device_session, known) (ground arith)
        ]

-- A device session is revoked with success, and then any credentials are created or exchanged, and
-- any sessions authenticated or revoked: the device's session is never active again, and no token
-- authenticates as the device of that owner.
pub revoke_device_session-ends :
    (db : Database) (owner_id device_id : ℕ) (now_ms : ℤ) (session : DeviceSession)
    → (revoke_device_session db owner_id device_id now_ms).1 ≡ ok session
    → (steps : List Step) (token_digest : ℕ) (later_ms : ℤ)
    → let db' = run steps (revoke_device_session db owner_id device_id now_ms).0 in
      (device_session_is_active db' owner_id device_id ≡ false)
      × (is_some_and
            (authenticate_device_session db' token_digest later_ms).1
            (is_device owner_id device_id)
          ≡ false)
unfolding device_session_is_active
revoke_device_session-ends db owner_id device_id now_ms session h steps token_digest later_ms =
    let gone =
      run-IsGone owner_id device_id steps (revoke_device_session db owner_id device_id now_ms).0
        (revoked-IsGone owner_id device_id db now_ms session h) in
    (
      inactive owner_id device_id _ gone.1,
      not_authenticated owner_id device_id _ token_digest later_ms gone,
    )
