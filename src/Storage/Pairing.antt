-- ===== src/Storage/Pairing.antt =====
-- crates/homebot-storage/src/lib.rs: pairing credentials and device sessions, with the constraints
-- of their tables (crates/homebot-storage/migrations/0017 and 0024). Identifiers and digests are
-- numbers.
pub mod Sessions
pub mod Steps
pub mod Counts
pub mod Once
pub mod Gone
pub mod Revoked
use home_bot.Common.{
  Bool, true, false, not, ◌&&◌, ◌||◌, Option, none, some, List, [], ◌∷◌, ◌++◌, map, ℕ, zero, suc,
  ◌+◌, ◌-◌, ok, err, Result, if◌then◌else◌, ◌==◌, ltb, leb, any, find, filterb, take, count, length,
  is_some, is_none, is_none_or, is_some_and,
}
use home_bot.Common.Int.{ℤ, pos, ltb_ℤ, leb_ℤ, saturating_sub}
use home_bot.Common.Text.{Text, codes, text_eq, trim}
use home_bot.Storage.Errors.{
  StorageError, sql, integrity, pairing_not_found, pairing_expired, pairing_consumed,
  pairing_origin_mismatch, pairing_rate_limited, device_session_not_found,
}

-- A row of `pairing_credentials`.
pub record PairingCredential : Type 0 where
  pub id : ℕ
  pub owner_id : ℕ
  pub token_digest : ℕ
  pub native_proof_digest : Option ℕ
  pub endpoint : Text
  pub expected_origin : Text
  pub endpoint_kind : Text
  pub created_at_ms : ℤ
  pub expires_at_ms : ℤ
  pub consumed_at_ms : Option ℤ
  pub failed_attempts : ℕ

-- A row of `device_sessions`: a `DeviceSessionRecord` with the digest of its token.
pub record DeviceSession : Type 0 where
  pub id : ℕ
  pub owner_id : ℕ
  pub name : Text
  pub token_digest : ℕ
  pub endpoint_kind : Text
  pub created_at_ms : ℤ
  pub last_seen_at_ms : Option ℤ
  pub revoked_at_ms : Option ℤ

-- A row of `pairing_exchange_attempts`.
pub record ExchangeAttempt : Type 0 where
  pub id : ℕ
  pub token_digest : ℕ
  pub source_digest : ℕ
  pub attempted_at_ms : ℤ

pub record Database : Type 0 where
  pub credentials : List PairingCredential
  pub sessions : List DeviceSession
  pub attempts : List ExchangeAttempt
  pub last_attempt : ℕ

abbrev pub is_endpoint_kind : Text → Bool
is_endpoint_kind kind =
    text_eq kind (codes "loopback")
    || text_eq kind (codes "lan")
    || text_eq kind (codes "tailscale")
    || text_eq kind (codes "custom_https")

-- The statement breaks a constraint of `pairing_credentials`.
unfoldable pub credential_refused : List PairingCredential → (id token_digest : ℕ) → Text → Bool
credential_refused credentials id token_digest endpoint_kind =
    any (λ c. c.token_digest == token_digest) credentials
    || any (λ c. c.id == id) credentials
    || not (is_endpoint_kind endpoint_kind)

unfoldable pub create_pairing_credential :
    Database
    → (owner_id id token_digest native_proof_digest : ℕ)
    → (endpoint expected_origin endpoint_kind : Text) (created_at_ms expires_at_ms : ℤ)
    → Database × Result StorageError PairingCredential
unfolding credential_refused
create_pairing_credential db owner_id id token_digest native_proof_digest endpoint expected_origin
      endpoint_kind created_at_ms expires_at_ms =
    let credential : PairingCredential = record {
      id = id;
      owner_id = owner_id;
      token_digest = token_digest;
      native_proof_digest = some native_proof_digest;
      endpoint = endpoint;
      expected_origin = expected_origin;
      endpoint_kind = endpoint_kind;
      created_at_ms = created_at_ms;
      expires_at_ms = expires_at_ms;
      consumed_at_ms = none;
      failed_attempts = 0;
    } in
    if leb_ℤ expires_at_ms created_at_ms
    then (db, err (integrity (codes "pairing expiry must be after creation")))
    else if credential_refused db.credentials id token_digest endpoint_kind
    then (db, err sql)
    else (record db { credentials = db.credentials ++ credential ∷ [] }, ok credential)

unfoldable pub validated_device_name : Text → Result StorageError Text
validated_device_name device_name =
    let name = trim device_name in
    if (length name == 0) || ltb 80 (length name)
    then err (integrity (codes "device name must contain 1 to 80 characters"))
    else ok name

unfoldable pub pairing_credential_state :
    Option ℤ
    → (expires_at_ms : ℤ) → (failed_attempts : ℕ) → (now_ms : ℤ) → Result StorageError (Unit {0})
pairing_credential_state consumed_at_ms expires_at_ms failed_attempts now_ms =
    if is_some consumed_at_ms
    then err pairing_consumed
    else if leb_ℤ expires_at_ms now_ms
    then err pairing_expired
    else if leb 5 failed_attempts
    then err pairing_rate_limited
    else ok tt

unfoldable pub pairing_provenance_matches : Option Text → Option ℕ → Text → Option ℕ → Bool
pairing_provenance_matches (some origin) none expected_origin expected_native_proof =
    text_eq origin expected_origin
pairing_provenance_matches none (some proof) expected_origin expected_native_proof =
    is_some_and expected_native_proof (λ expected. proof == expected)
pairing_provenance_matches none none expected_origin expected_native_proof = false
pairing_provenance_matches (some origin) (some proof) expected_origin expected_native_proof = false

-- `ORDER BY attempted_at_ms, id`.
unfoldable pub insert_attempt : ExchangeAttempt → List ExchangeAttempt → List ExchangeAttempt
insert_attempt a [] = a ∷ []
insert_attempt a (b ∷ attempts) =
    let rest = insert_attempt a attempts in
    if ltb_ℤ a.attempted_at_ms b.attempted_at_ms
      || (leb_ℤ a.attempted_at_ms b.attempted_at_ms && leb a.id b.id)
    then a ∷ b ∷ attempts
    else b ∷ rest

unfoldable pub oldest_first : List ExchangeAttempt → List ExchangeAttempt
unfolding insert_attempt
oldest_first [] = []
oldest_first (a ∷ attempts) = insert_attempt a (oldest_first attempts)

-- `none` stands for `false`: too many attempts of one source.
unfoldable pub record_unknown_pairing_attempt :
    Database → (token_digest source_digest : ℕ) → (now_ms : ℤ) → Option Database
unfolding oldest_first
record_unknown_pairing_attempt db token_digest source_digest now_ms =
    let source_attempts = count (λ a. a.source_digest == source_digest) db.attempts in
    let dropped = take (length db.attempts - 9999) (oldest_first db.attempts) in
    let kept = filterb (λ a. not (any (λ b. b.id == a.id) dropped)) db.attempts in
    let attempt : ExchangeAttempt = record {
      id = suc db.last_attempt;
      token_digest = token_digest;
      source_digest = source_digest;
      attempted_at_ms = now_ms;
    } in
    if leb 30 source_attempts
    then none
    else some (record db { attempts = kept ++ attempt ∷ []; last_attempt = suc db.last_attempt })

-- `length(name) BETWEEN 1 AND 80` of SQLite, which counts the characters before a NUL.
unfoldable pub sqlite_length : Text → ℕ
sqlite_length [] = 0
sqlite_length (c ∷ text) = let rest = sqlite_length text in if c == 0 then 0 else suc rest

-- The statement breaks a constraint of `device_sessions`.
unfoldable pub session_refused : List DeviceSession → DeviceSession → Bool
unfolding sqlite_length
session_refused sessions session =
    any (λ s. s.id == session.id) sessions
    || any (λ s. s.token_digest == session.token_digest) sessions
    || ltb (sqlite_length session.name) 1
    || ltb 80 (sqlite_length session.name)
    || not (is_endpoint_kind session.endpoint_kind)

-- `UPDATE … SET failed_attempts = failed_attempts + 1 WHERE id = ?`.
unfoldable pub count_failure : ℕ → List PairingCredential → List PairingCredential
count_failure id =
    map (λ c. if c.id == id then record c { failed_attempts = suc c.failed_attempts } else c)

-- `UPDATE … SET consumed_at_ms = ? WHERE id = ? AND consumed_at_ms IS NULL`.
unfoldable pub consume : ℕ → ℤ → List PairingCredential → List PairingCredential
consume id now_ms = map (λ c.
    if (c.id == id) && is_none c.consumed_at_ms
    then record c { consumed_at_ms = some now_ms }
    else c)

unfoldable pub purge_attempts : ℤ → Database → Database
purge_attempts cutoff db = record db {
  attempts = filterb (λ a. not (ltb_ℤ a.attempted_at_ms cutoff)) db.attempts;
}

-- The arguments of `exchange_pairing_credential`.
pub record Exchange : Type 0 where
  pub owner_id : ℕ
  pub token_digest : ℕ
  pub native_proof_digest : Option ℕ
  pub request_origin : Option Text
  pub source_digest : ℕ
  pub device_id : ℕ
  pub device_name : Text
  pub session_digest : ℕ
  pub now_ms : ℤ
  pub rate_window_ms : ℤ

abbrev pub new_session : Exchange → Text → Text → DeviceSession
new_session x name endpoint_kind = record {
  id = x.device_id;
  owner_id = x.owner_id;
  name = name;
  token_digest = x.session_digest;
  endpoint_kind = endpoint_kind;
  created_at_ms = x.now_ms;
  last_seen_at_ms = none;
  revoked_at_ms = none;
}

-- From the check of the provenance on: `before` is the database that a rollback restores.
unfoldable pub redeem :
    (before db : Database)
    → Exchange
    → Text
    → PairingCredential
    → Database × Result StorageError DeviceSession
unfolding pairing_provenance_matches count_failure consume session_refused
redeem before db x name credential =
    let session = new_session x name credential.endpoint_kind in
    if not (
      pairing_provenance_matches x.request_origin x.native_proof_digest credential.expected_origin
        credential.native_proof_digest)
    then (
      record db { credentials = count_failure credential.id db.credentials },
      err pairing_origin_mismatch,
    )
    else if is_some credential.consumed_at_ms
    then (before, err pairing_consumed)
    else if session_refused db.sessions session
    then (before, err sql)
    else (
      record db {
        credentials = consume credential.id x.now_ms db.credentials;
        sessions = db.sessions ++ session ∷ [];
      },
      ok session,
    )

unfoldable pub exchange_pairing_credential :
    Database → Exchange → Database × Result StorageError DeviceSession
unfolding validated_device_name purge_attempts record_unknown_pairing_attempt
    pairing_credential_state redeem
exchange_pairing_credential before x = elim (validated_device_name x.device_name) [
  | err e ↦ (before, err e)
  | ok name ↦
      let db = purge_attempts (saturating_sub x.now_ms x.rate_window_ms) before in
      elim (find (λ c. (c.owner_id == x.owner_id) && (c.token_digest == x.token_digest))
        db.credentials) [
          | none ↦
              elim (record_unknown_pairing_attempt db x.token_digest x.source_digest x.now_ms) [
                | none ↦ (before, err pairing_rate_limited)
                | some recorded ↦ (recorded, err pairing_not_found)
              ]
          | some credential ↦
              elim (pairing_credential_state credential.consumed_at_ms credential.expires_at_ms
                credential.failed_attempts x.now_ms) [
                  | err e ↦ (db, err e)
                  | ok _ ↦ redeem before db x name credential
                ]
        ]
]
