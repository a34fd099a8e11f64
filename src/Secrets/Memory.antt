-- ===== src/Secrets/Memory.antt =====
-- The vault in memory (crates/homebot-secrets/src/lib.rs).
use home_bot.Common.{
  ◌≡◌, refl, sym, ◌∙◌, ◌≢◌, inl, inr, true, none, some, ok, Bool-cases, Result-cases, ◌>>=◌,
  refused, ok_or,
}
use home_bot.Secrets.Vault.{
  MemorySecretVault, check_locator, ensure_available, memory_put, memory_resolve, memory_delete,
  status, status_of, memory_vault, SecretStatus, SecretStoreError,
}
use home_bot.Common.Text.{Text, text_eq, text_eq_iff}
use home_bot.Common.HashMap.{HashMap, insert, get, get-insert, remove, get-remove, text_keys}

check-kept :
    (s : MemorySecretVault) (locator : Text) (m : HashMap Text Text)
    → check_locator (record s { values = m }) locator ≡ check_locator s locator
unfolding check_locator ensure_available
check-kept s locator m = refl

module _ (s : MemorySecretVault) (locator : Text) where
  put-checked :
      (value : Text)
      → check_locator s locator ≡ ok tt
      → memory_put s locator value ≡ (record s { values = insert locator value s.values }, ok tt)
  unfolding memory_put
  put-checked value p = rw (memory_put, p)

  resolve-checked :
      check_locator s locator ≡ ok tt
      → memory_resolve s locator ≡ ok_or (get locator s.values) SecretStoreError.not_found
  unfolding memory_resolve
  resolve-checked p = rw (memory_resolve, p)

  delete-checked :
      check_locator s locator ≡ ok tt
      → memory_delete s locator ≡ (
        record s { values = remove locator s.values },
        ok_or (get locator s.values) SecretStoreError.not_found >>= λ _. ok tt,
      )
  unfolding memory_delete
  delete-checked p = rw (memory_delete, p)

  resolve-kept :
      (m : HashMap Text Text)
      → get locator m ≡ get locator s.values
      → memory_resolve (record s { values = m }) locator ≡ memory_resolve s locator
  unfolding memory_resolve
  resolve-kept m eq = rw (memory_resolve, check-kept s locator m, eq)

  put-ok : (value : Text) → (memory_put s locator value).1 ≡ ok tt → check_locator s locator ≡ ok tt
  unfolding memory_put
  put-ok value h = elim (Result-cases (check_locator s locator)) [
    | inr (e, p) ↦ absurd (refused _ refl (rw (memory_put, p) at h))
    | inl (u, p) ↦ p
  ]

module _ (s : MemorySecretVault) (locator : Text) (value : Text) where
  -- Where a secret can be put under a locator, it is resolved there, and every other locator resolves
  -- as before. It can then be deleted, and its status afterwards is that it is missing.
  pub resolve-put-delete :
      (other : Text)
      → (memory_put s locator value).1 ≡ ok tt
      → let stored = (memory_put s locator value).0 in
        (memory_resolve stored locator ≡ ok value)
        × (other ≢ locator → memory_resolve stored other ≡ memory_resolve s other)
        × ((memory_delete stored locator).1 ≡ ok tt)
        × (status memory_vault (memory_delete stored locator).0 locator ≡ SecretStatus.missing)
  unfolding status status_of
  resolve-put-delete other h =
      let m = insert locator value s.values in
      let stored : MemorySecretVault = record s { values = m } in
      let deleted : MemorySecretVault = record s { values = remove locator m } in
      let p = put-ok s locator value h in
      let p' : check_locator stored locator ≡ ok tt = check-kept s locator m ∙ p in
      let p'' : check_locator deleted locator ≡ ok tt =
        check-kept s locator (remove locator m) ∙ p in
      let here : text_eq locator locator ≡ true = (text_eq_iff locator locator).1 refl in
      let found : get locator m ≡ some value =
        get-insert locator locator value s.values ∙ rw here refl in
      let gone : get locator (remove locator m) ≡ none =
        get-remove locator locator m ∙ rw here refl in
      rw (put-checked s locator value p, delete-checked stored locator p')
        (
          rw (resolve-checked stored locator p', found) refl,
          λ apart. resolve-kept s other m (
              get-insert locator other value s.values ∙ elim (Bool-cases (text_eq locator other)) [
                | inl hit ↦ absurd (apart (sym ((text_eq_iff locator other).0 hit)))
                | inr away ↦ rw away refl
              ]),
          rw found refl,
          rw (resolve-checked deleted locator p'', gone) refl,
        )
