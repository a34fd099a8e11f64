-- ===== src/Storage/Pairing/Sessions.antt =====
-- crates/homebot-storage/src/lib.rs: the sessions of paired devices.
use home_bot.Common.{
  Bool, ◌&&◌, Option, none, some, List, map, ℕ, ok, err, Result, if◌then◌else◌, ◌==◌, any, find,
  is_none, is_none_or,
}
use home_bot.Common.Int.{ℤ, pos, leb_ℤ, saturating_sub}
use home_bot.Storage.Errors.{StorageError, device_session_not_found}
use home_bot.Storage.Pairing.{Database, DeviceSession}

-- `UPDATE … SET last_seen_at_ms = ? WHERE id = ? AND revoked_at_ms IS NULL`.
unfoldable pub touch : ℕ → ℤ → List DeviceSession → List DeviceSession
touch id now_ms = map (λ s.
    if (s.id == id) && is_none s.revoked_at_ms
    then record s { last_seen_at_ms = some now_ms }
    else s)

unfoldable pub authenticate_device_session :
    Database → (token_digest : ℕ) → (now_ms : ℤ) → Database × Option DeviceSession
unfolding touch
authenticate_device_session db token_digest now_ms =
    elim (find (λ s. (s.token_digest == token_digest) && is_none s.revoked_at_ms) db.sessions) [
      | none ↦ (db, none)
      | some found ↦ (
        if is_none_or found.last_seen_at_ms (λ seen. leb_ℤ seen (saturating_sub now_ms (pos 60000)))
            then record db { sessions = touch found.id now_ms db.sessions }
            else db,
        some (record found { last_seen_at_ms = some now_ms }),
      )
    ]

unfoldable pub device_session_is_active : Database → (owner_id device_id : ℕ) → Bool
device_session_is_active db owner_id device_id =
    any (λ s. (s.id == device_id) && (s.owner_id == owner_id) && is_none s.revoked_at_ms)
      db.sessions

-- `UPDATE … SET revoked_at_ms = COALESCE(revoked_at_ms, ?) WHERE id = ? AND owner_id = ?`.
unfoldable pub revoke_rows : (owner_id device_id : ℕ) → ℤ → List DeviceSession → List DeviceSession
revoke_rows owner_id device_id now_ms = map (λ s.
    if (s.id == device_id) && (s.owner_id == owner_id) && is_none s.revoked_at_ms
    then record s { revoked_at_ms = some now_ms }
    else s)

unfoldable pub revoke_device_session :
    Database
    → (owner_id device_id : ℕ) → (now_ms : ℤ) → Database × Result StorageError DeviceSession
unfolding revoke_rows
revoke_device_session db owner_id device_id now_ms =
    let sessions = revoke_rows owner_id device_id now_ms db.sessions in
    elim (find (λ s. (s.id == device_id) && (s.owner_id == owner_id)) sessions) [
      | none ↦ (db, err device_session_not_found)
      | some session ↦ (record db { sessions = sessions }, ok session)
    ]
