-- ===== src/Storage/Pairing/Counts.antt =====
-- Counts of the credentials of a digest, issued and consumed (crates/homebot-storage/src/lib.rs).
use home_bot.Common.{
  ◌≡◌, refl, sym, Bool, true, false, ◌&&◌, some, List, [], ◌∷◌, ℕ, ◌≤◌, ◌<◌, arith, Bool-cases, inl,
  inr, ◌==◌, count, any, find, is_some,
}
use home_bot.Common.Int.{ℤ}
use mathlib.Core.Path.{subst}
use mathlib.Core.Option.{some-injective}
use home_bot.Storage.Pairing.{Exchange, PairingCredential, count_failure, consume}

abbrev pub has_digest : ℕ → PairingCredential → Bool
has_digest digest c = c.token_digest == digest

abbrev pub is_consumed : ℕ → PairingCredential → Bool
is_consumed digest c = (c.token_digest == digest) && is_some c.consumed_at_ms

abbrev pub exchanges_of : ℕ → Exchange → Bool
exchanges_of digest x = x.token_digest == digest

pub consumed_issued :
    (digest : ℕ) (cs : List PairingCredential)
    → count (is_consumed digest) cs ≤ count (has_digest digest) cs
consumed_issued digest [] = ground arith
consumed_issued digest (c ∷ cs) = ground (arith, consumed_issued digest cs)

pub fresh_issued :
    (digest : ℕ) (cs : List PairingCredential)
    → any (has_digest digest) cs ≡ false
    → count (has_digest digest) cs ≡ 0
fresh_issued digest [] h = refl
fresh_issued digest (c ∷ cs) h = ground (arith, fresh_issued digest cs)

pub count_failure-issued :
    (digest id : ℕ) (cs : List PairingCredential)
    → (count (has_digest digest) (count_failure id cs) ≡ count (has_digest digest) cs)
      × (count (is_consumed digest) (count_failure id cs) ≡ count (is_consumed digest) cs)
unfolding count_failure
count_failure-issued digest id [] = (refl, refl)
count_failure-issued digest id (c ∷ cs) = ground (arith, count_failure-issued digest id cs)

pub consume-issued :
    (digest id : ℕ) (now_ms : ℤ) (cs : List PairingCredential)
    → (count (has_digest digest) (consume id now_ms cs) ≡ count (has_digest digest) cs)
      × (count (is_consumed digest) cs ≤ count (is_consumed digest) (consume id now_ms cs))
unfolding consume
consume-issued digest id now_ms [] = ground arith
consume-issued digest id now_ms (c ∷ cs) = ground (arith, consume-issued digest id now_ms cs)

pub consume-front :
    (digest : ℕ) (now_ms : ℤ) (c : PairingCredential) (cs : List PairingCredential)
    → (c.token_digest == digest) ≡ true
    → is_some c.consumed_at_ms ≡ false
    → count (is_consumed digest) (c ∷ cs)
      < count (is_consumed digest) (consume c.id now_ms (c ∷ cs))
unfolding consume
consume-front digest now_ms c cs same unused = ground (arith, consume-issued digest c.id now_ms cs)

-- A credential that is found by its digest and was not consumed counts as consumed afterwards.
pub consume-found :
    (owner_id digest : ℕ) (now_ms : ℤ) (cs : List PairingCredential) (found : PairingCredential)
    → find (λ c. (c.owner_id == owner_id) && (c.token_digest == digest)) cs ≡ some found
    → is_some found.consumed_at_ms ≡ false
    → count (is_consumed digest) cs < count (is_consumed digest) (consume found.id now_ms cs)
unfolding consume
consume-found owner_id digest now_ms [] found h unused = absurd (ground arith)
consume-found owner_id digest now_ms (c ∷ cs) found h unused =
    elim (Bool-cases ((c.owner_id == owner_id) && (c.token_digest == digest))) [
      | inl hit ↦
          let same : c ≡ found = some-injective c found (rw hit at h) in
          subst
            (λ f.
              count (is_consumed digest) (c ∷ cs)
              < count (is_consumed digest) (consume f.id now_ms (c ∷ cs)))
            same
            (consume-front digest now_ms c cs (ground arith)
              (subst (λ f. is_some f.consumed_at_ms ≡ false) (sym same) unused))
      | inr miss ↦
          ground (arith, consume-found owner_id digest now_ms cs found (rw miss at h) unused)
    ]
