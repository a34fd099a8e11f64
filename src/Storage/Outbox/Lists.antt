-- ===== src/Storage/Outbox/Lists.antt =====
-- Outbox events in ascending order, filtered and taken (crates/homebot-storage/src/lib.rs,
-- `events_after`).
use home_bot.Common.{
  ◌≡◌, refl, ap, Bool, true, List, [], ◌∷◌, ◌++◌, ℕ, zero, suc, ◌≤◌, ◌<◌, arith, Bool-cases, inl,
  inr, leb, filterb, take, All,
}
use home_bot.Storage.Outbox.{Json, OutboxEvent, by_sequence, insert_event, is_after}

filterb-append {ℓ} :
    {A : Type ℓ} (p : A → Bool) (xs ys : List A)
    → filterb p (xs ++ ys) ≡ filterb p xs ++ filterb p ys
filterb-append p [] ys = refl
filterb-append p (x ∷ xs) ys = elim (Bool-cases (p x)) [
  | inl keep ↦ rw keep (ap (λ l. x ∷ l) (filterb-append p xs ys))
  | inr drop ↦ rw drop (filterb-append p xs ys)
]

pub filterb-same {ℓ} :
    {A : Type ℓ} (p : A → Bool) (xs ys zs : List A)
    → filterb p xs ≡ filterb p ys
    → filterb p (xs ++ zs) ≡ filterb p (ys ++ zs)
filterb-same p xs ys zs h =
    rw (filterb-append p xs zs, filterb-append p ys zs) (ap (λ l. l ++ filterb p zs) h)

-- A filter is not seen by a second one that keeps less.
pub filterb_implied {ℓ} :
    {A : Type ℓ} (p q : A → Bool) (xs : List A)
    → ((x : A) → p x ≡ true → q x ≡ true)
    → filterb p (filterb q xs) ≡ filterb p xs
filterb_implied p q [] implied = refl
filterb_implied p q (x ∷ xs) implied = elim (Bool-cases (q x)) [
  | inl keep ↦ elim (Bool-cases (p x)) [
    | inl hit ↦ rw (keep, hit) (ap (λ l. x ∷ l) (filterb_implied p q xs implied))
    | inr miss ↦ rw (keep, miss) (filterb_implied p q xs implied)
  ]
  | inr drop ↦ elim (Bool-cases (p x)) [
    | inl hit ↦ absurd (ground (arith, implied x hit))
    | inr miss ↦ rw (drop, miss) (filterb_implied p q xs implied)
  ]
]

module _ (json : Json) where
  -- The sequences ascend strictly, from above a number.
  abbrev pub IsAscending : ℕ → List (OutboxEvent json) → Type 0
  IsAscending n [] = Unit {0}
  IsAscending n (e ∷ events) = (n < e.sequence) × IsAscending e.sequence events

  pub IsAscending-lower :
      (m n : ℕ) (events : List (OutboxEvent json))
      → m ≤ n
      → IsAscending n events
      → IsAscending m events
  IsAscending-lower m n [] h ascending = tt
  IsAscending-lower m n (e ∷ events) h (above, rest) = (omega arith, rest)

  pub filterb-IsAscending :
      (p : OutboxEvent json → Bool) (n : ℕ) (events : List (OutboxEvent json))
      → IsAscending n events
      → IsAscending n (filterb p events)
  filterb-IsAscending p n [] ascending = tt
  filterb-IsAscending p n (e ∷ events) (above, rest) = elim (Bool-cases (p e)) [
    | inl keep ↦ rw keep (above, filterb-IsAscending p e.sequence events rest)
    | inr drop ↦ rw drop (
        IsAscending-lower n e.sequence (filterb p events) (omega arith)
          (filterb-IsAscending p e.sequence events rest))
  ]

  pub take-IsAscending :
      (k n : ℕ) (events : List (OutboxEvent json))
      → IsAscending n events
      → IsAscending n (take k events)
  take-IsAscending zero n events ascending = tt
  take-IsAscending (suc k) n [] ascending = tt
  take-IsAscending (suc k) n (e ∷ events) (above, rest) =
      (above, take-IsAscending k e.sequence events rest)

  pub after-IsAscending :
      (owner_id sequence n : ℕ) (events : List (OutboxEvent json))
      → IsAscending n events
      → IsAscending sequence (filterb (is_after json owner_id sequence) events)
  after-IsAscending owner_id sequence n [] ascending = tt
  after-IsAscending owner_id sequence n (e ∷ events) (above, rest) =
      elim (Bool-cases (is_after json owner_id sequence e)) [
        | inl keep ↦ rw keep (
          ground arith,
          filterb-IsAscending (is_after json owner_id sequence) e.sequence events rest,
        )
        | inr drop ↦ rw drop (after-IsAscending owner_id sequence e.sequence events rest)
      ]

  pub append-IsAscending :
      (n last : ℕ) (events : List (OutboxEvent json)) (e : OutboxEvent json)
      → IsAscending n events
      → All (λ f. f.sequence ≤ last) events
      → n ≤ last
      → last < e.sequence
      → IsAscending n (events ++ e ∷ [])
  append-IsAscending n last [] e ascending bounded low above = (omega arith, tt)
  append-IsAscending n last (f ∷ events) e (first, rest) (low', bounded) low above =
      (first, append-IsAscending f.sequence last events e rest bounded low' above)

  insert_event_front :
      (e : OutboxEvent json) (events : List (OutboxEvent json))
      → IsAscending e.sequence events
      → insert_event json e events ≡ e ∷ events
  unfolding insert_event
  insert_event_front e [] ascending = refl
  insert_event_front e (f ∷ events) (above, rest) =
      let first : leb e.sequence f.sequence ≡ true = ground arith in rw first

  -- Ordering changes nothing where the events are in order.
  pub by_sequence-IsAscending :
      (n : ℕ) (events : List (OutboxEvent json))
      → IsAscending n events
      → by_sequence json events ≡ events
  unfolding by_sequence
  by_sequence-IsAscending n [] ascending = refl
  by_sequence-IsAscending n (e ∷ events) (above, rest) =
      rw (by_sequence-IsAscending e.sequence events rest) (insert_event_front e events rest)
