-- ===== src/Secrets/Vault.antt =====
-- crates/homebot-secrets/src/lib.rs: the interface of a vault and the vault in memory. A secret is its
-- text.
use home_bot.Common.{
  Bool, ◌&&◌, ◌||◌, Option, none, some, ℕ, ok, err, Result, if◌then◌else◌, ◌==◌, leb, ◌>>=◌, ok_or,
  all,
}
use home_bot.Common.Text.{Text, is_ascii_alphanumeric, starts_with, codes, byte_len}
use home_bot.Common.HashMap.{HashMap, insert, remove, get, text_keys}

pub data SecretStatus : Type 0 where
  ready locked unavailable missing : SecretStatus

pub data SecretStoreError : Type 0 where
  locked unavailable not_found invalid_reference operation_failed : SecretStoreError

-- The trait `SecretVault`, over the state of the vault.
pub record SecretVault (S : Type 0) : Type 0 where
  pub put : S → Text → Text → S × Result SecretStoreError (Unit {0})
  pub resolve : S → Text → Result SecretStoreError Text
  pub delete : S → Text → S × Result SecretStoreError (Unit {0})

-- `SecretVault::status`, from the result of `resolve`.
unfoldable pub status_of : Result SecretStoreError Text → SecretStatus
status_of (ok value) = SecretStatus.ready
status_of (err SecretStoreError.locked) = SecretStatus.locked
status_of (err SecretStoreError.not_found) = SecretStatus.missing
status_of (err SecretStoreError.unavailable) = SecretStatus.unavailable
status_of (err SecretStoreError.invalid_reference) = SecretStatus.unavailable
status_of (err SecretStoreError.operation_failed) = SecretStatus.unavailable

unfoldable pub status : {S : Type 0} → SecretVault S → S → Text → SecretStatus
unfolding status_of
status vault s locator = status_of (vault.resolve s locator)

abbrev is_locator_byte : ℕ → Bool
is_locator_byte b = is_ascii_alphanumeric b || (b == b':') || (b == b'-')

unfoldable pub validate_locator : Text → Result SecretStoreError (Unit {0})
unfolding starts_with is_ascii_alphanumeric
validate_locator locator =
    if starts_with locator (codes "homebot:")
      && leb (byte_len locator) 160
      && all is_locator_byte locator
    then ok tt
    else err SecretStoreError.invalid_reference

pub record MemorySecretVault : Type 0 where
  pub values : HashMap Text Text
  pub forced_status : Option SecretStatus

unfoldable pub force_status : MemorySecretVault → Option SecretStatus → MemorySecretVault
force_status s status = record s { forced_status = status }

unfoldable pub ensure_available : MemorySecretVault → Result SecretStoreError (Unit {0})
ensure_available s = elim s.forced_status [
  | none ↦ ok tt
  | some SecretStatus.locked ↦ err SecretStoreError.locked
  | some SecretStatus.unavailable ↦ err SecretStoreError.unavailable
  | some SecretStatus.ready ↦ ok tt
  | some SecretStatus.missing ↦ ok tt
]

-- The two checks that each operation of the vault makes first.
unfoldable pub check_locator : MemorySecretVault → Text → Result SecretStoreError (Unit {0})
unfolding validate_locator ensure_available
check_locator s locator = validate_locator locator >>= λ _. ensure_available s

unfoldable pub memory_put :
    MemorySecretVault → Text → Text → MemorySecretVault × Result SecretStoreError (Unit {0})
unfolding check_locator
memory_put s locator value = elim (check_locator s locator) [
  | err e ↦ (s, err e)
  | ok _ ↦ (record s { values = insert locator value s.values }, ok tt)
]

unfoldable pub memory_resolve : MemorySecretVault → Text → Result SecretStoreError Text
unfolding check_locator
memory_resolve s locator =
    check_locator s locator >>= λ _. ok_or (get locator s.values) SecretStoreError.not_found

unfoldable pub memory_delete :
    MemorySecretVault → Text → MemorySecretVault × Result SecretStoreError (Unit {0})
unfolding check_locator
memory_delete s locator = elim (check_locator s locator) [
  | err e ↦ (s, err e)
  | ok _ ↦ (
    record s { values = remove locator s.values },
    ok_or (get locator s.values) SecretStoreError.not_found >>= λ _. ok tt,
  )
]

abbrev pub memory_vault : SecretVault MemorySecretVault
memory_vault = record { put = memory_put; resolve = memory_resolve; delete = memory_delete }
