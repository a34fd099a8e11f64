-- ===== src/Storage/Idempotency/Claims.antt =====
-- A key that is claimed again after other claims and releases (crates/homebot-storage/src/lib.rs,
-- `claim_idempotency`).
use home_bot.Common.{
  ◌≡◌, refl, sym, ◌∙◌, Bool, true, false, not, Option, none, some, List, ◌∷◌, ◌++◌, [], ℕ, arith,
  Bool-cases, Option-cases, inl, inr, if◌then◌else◌, ◌==◌, find, all,
}
use home_bot.Common.Int.{ℤ}
use home_bot.Common.Text.{Text, text_eq}
use mathlib.Core.Option.{none-ne-some}
use home_bot.Storage.Idempotency.{
  IdempotencyRecord, replayed, conflict, claim_idempotency, release_idempotency,
}

pub data Step : Type 0 where
  claim : (key : ℕ) → Text → (proposed_operation_id : ℕ) → ℤ → Step
  release : (key : ℕ) → Step

unfoldable pub step : List IdempotencyRecord → Step → List IdempotencyRecord
step records (claim key request_hash proposed now_ms) =
    (claim_idempotency records key request_hash proposed now_ms).0
step records (release key) = release_idempotency records key

-- The table after some steps, the last step first.
unfoldable pub run : List Step → List IdempotencyRecord → List IdempotencyRecord
unfolding step
run [] records = records
run (next ∷ steps) records = step (run steps records) next

-- A step that is no release of the key.
abbrev pub keeps : ℕ → Step → Bool
keeps key (claim other request_hash proposed now_ms) = true
keeps key (release other) = not (other == key)

-- What is held for a key.
abbrev pub held : List IdempotencyRecord → ℕ → Option IdempotencyRecord
held records key = find (λ r. r.key == key) records

find-append_some :
    (p : IdempotencyRecord → Bool) (xs ys : List IdempotencyRecord) (r : IdempotencyRecord)
    → find p xs ≡ some r
    → find p (xs ++ ys) ≡ some r
find-append_some p [] ys r h = absurd (none-ne-some r h)
find-append_some p (x ∷ xs) ys r h = elim (Bool-cases (p x)) [
  | inl hit ↦ rw hit (rw hit at h)
  | inr miss ↦ rw miss (find-append_some p xs ys r (rw miss at h))
]

find-append_none :
    (p : IdempotencyRecord → Bool) (xs : List IdempotencyRecord) (r : IdempotencyRecord)
    → find p xs ≡ none
    → p r ≡ true
    → find p (xs ++ r ∷ []) ≡ some r
find-append_none p [] r h hit = rw hit
find-append_none p (x ∷ xs) r h hit = elim (Bool-cases (p x)) [
  | inl found ↦ absurd (none-ne-some x (sym (rw found at h)))
  | inr miss ↦ rw miss (find-append_none p xs r (rw miss at h) hit)
]

release-held :
    (records : List IdempotencyRecord) (key other : ℕ)
    → (other == key) ≡ false
    → held (release_idempotency records other) key ≡ held records key
unfolding release_idempotency
release-held [] key other differ = refl
release-held (r ∷ records) key other differ = elim (Bool-cases (r.key == other)) [
  | inl gone ↦
      let elsewhere : (r.key == key) ≡ false = ground arith in
      rw (gone, elsewhere) (release-held records key other differ)
  | inr kept ↦ elim (Bool-cases (r.key == key)) [
    | inl hit ↦ rw (kept, hit)
    | inr miss ↦ rw (kept, miss) (release-held records key other differ)
  ]
]

claim-held :
    (records : List IdempotencyRecord) (key other : ℕ) (request_hash : Text) (proposed : ℕ)
    (now_ms : ℤ) (r : IdempotencyRecord)
    → held records key ≡ some r
    → held (claim_idempotency records other request_hash proposed now_ms).0 key ≡ some r
unfolding claim_idempotency
claim-held records key other request_hash proposed now_ms r h =
    elim (Option-cases (held records other)) [
      | inl free ↦ rw (claim_idempotency, free) (find-append_some (λ s. s.key == key) records _ r h)
      | inr (row, taken) ↦ rw (claim_idempotency, taken) h
    ]

run-held :
    (steps : List Step) (records : List IdempotencyRecord) (key : ℕ) (r : IdempotencyRecord)
    → all (keeps key) steps ≡ true
    → held records key ≡ some r
    → held (run steps records) key ≡ some r
unfolding run step
run-held [] records key r kept h = h
run-held (claim other request_hash proposed now_ms ∷ steps) records key r kept h =
    claim-held (run steps records) key other request_hash proposed now_ms r
      (run-held steps records key r (ground arith) h)
run-held (release other ∷ steps) records key r kept h =
    release-held (run steps records) key other (ground arith)
    ∙ run-held steps records key r (ground arith) h

-- The record that a claim leaves for its key: the one that was there, or its own.
abbrev pub kept_record :
    List IdempotencyRecord → (key : ℕ) → Text → (proposed : ℕ) → ℤ → IdempotencyRecord
kept_record records key request_hash proposed now_ms = elim (held records key) [
  | none ↦ record {
    key = key;
    request_hash = request_hash;
    operation_id = proposed;
    created_at_ms = now_ms;
  }
  | some r ↦ r
]

claim-kept_record :
    (records : List IdempotencyRecord) (key : ℕ) (request_hash : Text) (proposed : ℕ) (now_ms : ℤ)
    → held (claim_idempotency records key request_hash proposed now_ms).0 key
      ≡ some (kept_record records key request_hash proposed now_ms)
unfolding claim_idempotency
claim-kept_record records key request_hash proposed now_ms =
    elim (Option-cases (held records key)) [
      | inl free ↦
          rw (claim_idempotency, kept_record, free)
            (find-append_none (λ s. s.key == key) records _ free (ground arith))
      | inr (row, taken) ↦ rw (claim_idempotency, kept_record, taken) taken
    ]

-- A key is claimed, and then any keys are claimed or released, but this one is not released. Claimed
-- again, it is never given out a second time: the claim is replayed with the operation of the record
-- that the first claim found or left, where the hash of the request is the same, and is a conflict
-- otherwise.
pub claim_idempotency-replayed :
    (records : List IdempotencyRecord) (key : ℕ) (request_hash : Text) (proposed : ℕ) (now_ms : ℤ)
    (steps : List Step)
    → all (keeps key) steps ≡ true
    → (request_hash' : Text) (proposed' : ℕ) (later_ms : ℤ)
    → let first = kept_record records key request_hash proposed now_ms in
      let records' = run steps (claim_idempotency records key request_hash proposed now_ms).0 in
      claim_idempotency records' key request_hash' proposed' later_ms ≡ (
        records',
        if text_eq first.request_hash request_hash' then replayed first.operation_id else conflict,
      )
unfolding claim_idempotency
claim_idempotency-replayed records key request_hash proposed now_ms steps kept request_hash'
      proposed' later_ms =
    again (run steps (claim_idempotency records key request_hash proposed now_ms).0)
      (run-held steps _ key _ kept (claim-kept_record records key request_hash proposed now_ms))
  where
    again :
        (records' : List IdempotencyRecord)
        → held records' key ≡ some (kept_record records key request_hash proposed now_ms)
        → claim_idempotency records' key request_hash' proposed' later_ms ≡ (
          records',
          if text_eq
                (kept_record records key request_hash proposed now_ms).request_hash
                request_hash'
              then replayed (kept_record records key request_hash proposed now_ms).operation_id
              else conflict,
        )
    again records' present = rw (claim_idempotency, present)
