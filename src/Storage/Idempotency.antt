-- ===== src/Storage/Idempotency.antt =====
-- crates/homebot-storage/src/lib.rs: the keys of idempotent requests, in the table
-- `idempotency_records`. The hash of a request is a text.
pub mod Claims
use home_bot.Common.{
  Bool, not, Option, none, some, List, ◌∷◌, ◌++◌, [], ℕ, if◌then◌else◌, ◌==◌, find, filterb,
}
use home_bot.Common.Int.{ℤ}
use home_bot.Common.Text.{Text, text_eq}

pub record IdempotencyRecord : Type 0 where
  pub key : ℕ
  pub request_hash : Text
  pub operation_id : ℕ
  pub created_at_ms : ℤ

pub data IdempotencyClaim : Type 0 where
  claimed replayed : (operation_id : ℕ) → IdempotencyClaim
  conflict : IdempotencyClaim

unfoldable pub claim_idempotency :
    List IdempotencyRecord
    → (key : ℕ) (request_hash : Text) (proposed_operation_id : ℕ) (created_at_ms : ℤ)
    → List IdempotencyRecord × IdempotencyClaim
claim_idempotency records key request_hash proposed_operation_id created_at_ms =
    let new : IdempotencyRecord = record {
      key = key;
      request_hash = request_hash;
      operation_id = proposed_operation_id;
      created_at_ms = created_at_ms;
    } in
    elim (find (λ r. r.key == key) records) [
      | none ↦ (records ++ new ∷ [], claimed proposed_operation_id)
      | some row ↦ (
        records,
        if text_eq row.request_hash request_hash then replayed row.operation_id else conflict,
      )
    ]

unfoldable pub release_idempotency : List IdempotencyRecord → (key : ℕ) → List IdempotencyRecord
release_idempotency records key = filterb (λ r. not (r.key == key)) records
