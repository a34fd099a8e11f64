-- ===== src/Storage/Pairing/Gone.antt =====
-- The sessions of a device that was revoked, under the statements that change sessions
-- (crates/homebot-storage/src/lib.rs).
use home_bot.Common.{
  ◌≡◌, refl, ◌∙◌, Bool, true, false, not, ◌&&◌, ◌||◌, some, List, [], ◌∷◌, ◌++◌, ℕ, arith,
  Bool-cases, inl, inr, ◌==◌, any, all, any-append, all-append, find, is_some,
}
use home_bot.Common.Int.{ℤ}
use mathlib.Core.Option.{some-injective, none-ne-some}
use mathlib.Core.Path.{subst}
use home_bot.Storage.Pairing.{DeviceSession}
use home_bot.Storage.Pairing.Sessions.{touch, revoke_rows}

module _ (owner_id device_id : ℕ) where
  abbrev pub is_device : DeviceSession → Bool
  is_device s = (s.id == device_id) && (s.owner_id == owner_id)

  abbrev pub is_ended : DeviceSession → Bool
  is_ended s = not (is_device s) || is_some s.revoked_at_ms

  -- The device's identifier is taken, and each session of the device is revoked.
  abbrev pub IsGone : List DeviceSession → Type 0
  IsGone sessions = (any (λ s. s.id == device_id) sessions ≡ true) × (all is_ended sessions ≡ true)

  pub touch-is_ended :
      (id : ℕ) (now_ms : ℤ) (sessions : List DeviceSession)
      → (any (λ s. s.id == device_id) (touch id now_ms sessions)
          ≡ any (λ s. s.id == device_id) sessions)
        × (all is_ended (touch id now_ms sessions) ≡ all is_ended sessions)
  unfolding touch
  touch-is_ended id now_ms [] = (refl, refl)
  touch-is_ended id now_ms (s ∷ sessions) = ground (arith, touch-is_ended id now_ms sessions)

  pub touch-IsGone :
      (id : ℕ) (now_ms : ℤ) (sessions : List DeviceSession)
      → IsGone sessions
      → IsGone (touch id now_ms sessions)
  touch-IsGone id now_ms sessions (taken, ended) =
      let (same_taken, same_ended) = touch-is_ended id now_ms sessions in
      (same_taken ∙ taken, same_ended ∙ ended)

  pub revoke_rows-any :
      (owner device : ℕ) (now_ms : ℤ) (sessions : List DeviceSession)
      → any (λ s. s.id == device_id) (revoke_rows owner device now_ms sessions)
        ≡ any (λ s. s.id == device_id) sessions
  unfolding revoke_rows
  revoke_rows-any owner device now_ms [] = refl
  revoke_rows-any owner device now_ms (s ∷ sessions) =
      ground (arith, revoke_rows-any owner device now_ms sessions)

  pub revoke_rows-all :
      (owner device : ℕ) (now_ms : ℤ) (sessions : List DeviceSession)
      → all is_ended sessions ≡ true
      → all is_ended (revoke_rows owner device now_ms sessions) ≡ true
  unfolding revoke_rows
  revoke_rows-all owner device now_ms [] ended = refl
  revoke_rows-all owner device now_ms (s ∷ sessions) ended =
      ground (arith, revoke_rows-all owner device now_ms sessions)

  -- The statement that revokes the device's own sessions.
  pub revoke_rows-ended :
      (now_ms : ℤ) (sessions : List DeviceSession)
      → all is_ended (revoke_rows owner_id device_id now_ms sessions) ≡ true
  unfolding revoke_rows
  revoke_rows-ended now_ms [] = refl
  revoke_rows-ended now_ms (s ∷ sessions) = ground (arith, revoke_rows-ended now_ms sessions)

  pub append-IsGone :
      (sessions : List DeviceSession) (s : DeviceSession)
      → any (λ t. t.id == s.id) sessions ≡ false
      → IsGone sessions
      → IsGone (sessions ++ s ∷ [])
  append-IsGone sessions s new (taken, ended) = elim (Bool-cases (s.id == device_id)) [
    | inl same ↦ absurd (clash (ground arith))
    | inr other ↦ (
      ground (arith, any-append (λ t. t.id == device_id) sessions (s ∷ [])),
      ground (arith, all-append is_ended sessions (s ∷ [])),
    )
  ]
    where
      clash : s.id ≡ device_id → ⊥
      clash same =
          let new' : any (λ t. t.id == device_id) sessions ≡ false =
            subst (λ d. any (λ t. t.id == d) sessions ≡ false) same new in
          ground arith

  pub find_ended :
      (p : DeviceSession → Bool) (sessions : List DeviceSession) (found : DeviceSession)
      → find p sessions ≡ some found
      → all is_ended sessions ≡ true
      → (p found ≡ true) × (is_ended found ≡ true)
  find_ended p [] found h ended = absurd (none-ne-some found h)
  find_ended p (s ∷ sessions) found h ended = elim (Bool-cases (p s)) [
    | inl hit ↦
        subst (λ f. (p f ≡ true) × (is_ended f ≡ true)) (some-injective s found (rw hit at h))
          (hit, ground arith)
    | inr miss ↦ find_ended p sessions found (rw miss at h) (ground arith)
  ]
