-- ===== src/Routines/Schedule/Interval.antt =====
-- The arm `Interval` of `next_occurrence` (crates/homebot-routines/src/schedule.rs): the grid of its
-- occurrences.
use native.Mathlib.Nat.{div-add-mod, mod-lt}
use home_bot.Common.{
  ℕ, ◌+◌, ◌-◌, ◌*◌, ◌/◌, ◌≤◌, ◌<◌, ◌≡◌, sym, ◌∙◌, true, false, ◌&&◌, Option, some, arith, ◌==◌, inl,
  inr, Bool-cases, if◌then◌else◌, Result, ok, ok_or, ◌>>=◌,
}
use home_bot.Common.Int.{
  ℤ, pos, pos_part, neg_part, ◌+ℤ◌, ◌-ℤ◌, ◌*ℤ◌, div_ℤ, ltb_ℤ, leb_ℤ, ◌≤ℤ◌, ◌<ℤ◌, checked,
  checked_add, checked_sub, checked_mul, checked_div, i64_min, i64_max, int_laws, eq_of_parts,
  is_zero_ℤ,
}
use home_bot.Routines.Schedule.Defs.{ScheduleError, invalid, next_interval}

checked-eq : (a b : ℤ) → checked a ≡ some b → a ≡ b
checked-eq a b h = elim (Bool-cases (leb_ℤ i64_min a && leb_ℤ a i64_max)) [
  | inl fits ↦ cc (rw fits at h)
  | inr not_fits ↦ absurd (cc (rw not_fits at h))
]

checked-bind {ℓ κ} :
    {B : Type ℓ} {E : Type κ} (a : ℤ) (e : E) (f : ℤ → Result E B) {b : B}
    → (ok_or (checked a) e >>= f) ≡ ok b
    → f a ≡ ok b
checked-bind a e f h = elim (Bool-cases (leb_ℤ i64_min a && leb_ℤ a i64_max)) [
  | inl fits ↦ rw fits at h
  | inr not_fits ↦ absurd (cc (rw not_fits at h))
]

pub mul_pos : (a b : ℕ) → pos a *ℤ pos b ≡ pos (a * b)
unfolding ◌*ℤ◌
mul_pos a b = ground arith

pub div_pos : (a b : ℕ) → div_ℤ (pos a) (pos b) ≡ pos (a / b)
unfolding div_ℤ
div_pos a b = ground arith

pub add_pos : (a b : ℕ) → pos a +ℤ pos b ≡ pos (a + b)
unfolding ◌+ℤ◌
add_pos a b = ground arith

-- The milliseconds from the anchor to a later instant.
abbrev pub elapsed_ms : ℤ → ℤ → ℕ
elapsed_ms anchor after = pos_part after + neg_part anchor - (pos_part anchor + neg_part after)

pub sub_pos : (anchor after : ℤ) → anchor ≤ℤ after → after -ℤ anchor ≡ pos (elapsed_ms anchor after)
unfolding ◌-ℤ◌
sub_pos anchor after h = ground arith

module _ {ℓ κ} {B : Type ℓ} {E : Type κ} (a b : ℤ) (e : E) (f : ℤ → Result E B) {r : B} where
  checked_add-bind : (ok_or (checked_add a b) e >>= f) ≡ ok r → f (a +ℤ b) ≡ ok r
  unfolding checked_add
  checked_add-bind h = checked-bind (a +ℤ b) e f h

  checked_sub-bind : (ok_or (checked_sub a b) e >>= f) ≡ ok r → f (a -ℤ b) ≡ ok r
  unfolding checked_sub
  checked_sub-bind h = checked-bind (a -ℤ b) e f h

  checked_mul-bind : (ok_or (checked_mul a b) e >>= f) ≡ ok r → f (a *ℤ b) ≡ ok r
  unfolding checked_mul
  checked_mul-bind h = checked-bind (a *ℤ b) e f h

  checked_div-bind : (ok_or (checked_div a b) e >>= f) ≡ ok r → f (div_ℤ a b) ≡ ok r
  unfolding checked_div
  checked_div-bind h = elim (Bool-cases (is_zero_ℤ b)) [
    | inl zero_divisor ↦ absurd (cc (rw zero_divisor at h))
    | inr divisor ↦ checked-bind (div_ℤ a b) e f (rw divisor at h)
  ]

-- The rest of the arm once the period is known.
abbrev from_period : ℤ → ℤ → ℤ → Result ScheduleError (Option ℤ)
from_period anchor after period = if ltb_ℤ after anchor then ok (some anchor) else do
  elapsed ← ok_or (checked_sub after anchor) invalid
  quotient ← ok_or (checked_div elapsed period) invalid
  steps ← ok_or (checked_add quotient (pos 1)) invalid
  product ← ok_or (checked_mul steps period) invalid
  ok (checked_add anchor product)

next_interval-from_period :
    (anchor : ℤ) (every : ℕ) (after : ℤ) {r : Option ℤ}
    → next_interval anchor every after ≡ ok r
    → (0 < every) × (from_period anchor after (pos (every * 1000)) ≡ ok r)
unfolding next_interval
next_interval-from_period anchor every after {r} h = elim (Bool-cases (every == 0)) [
  | inl none_at_all ↦ absurd (cc (rw none_at_all at h))
  | inr some_time ↦
      let step =
        checked_mul-bind (pos every) (pos 1000) invalid (from_period anchor after) {r = r}
          (rw some_time at h) in
      (ground arith, rw (mul_pos every 1000) at step)
]

checked_add-some : (a b : ℤ) {r : ℤ} → checked_add a b ≡ some r → r ≡ a +ℤ b
unfolding checked_add
checked_add-some a b {r} h = sym (checked-eq (a +ℤ b) r h)

-- The computation of the arm without its checks.
next_interval-later :
    (anchor : ℤ) (every : ℕ) (after : ℤ) {r : ℤ}
    → anchor ≤ℤ after
    → next_interval anchor every after ≡ ok (some r)
    → (0 < every)
      × (r ≡ anchor +ℤ pos ((elapsed_ms anchor after / (every * 1000) + 1) * (every * 1000)))
next_interval-later anchor every after {r} h e =
    let (positive, from) = next_interval-from_period anchor every after {r = some r} e in
    let running : ltb_ℤ after anchor ≡ false = ground arith in
    let n = elapsed_ms anchor after in
    let p = every * 1000 in
    let sub = checked_sub-bind after anchor invalid _ {r = some r} (rw running at from) in
    let div =
      checked_div-bind (pos n) (pos p) invalid _ {r = some r}
        (rw (sub_pos anchor after h) at sub) in
    let plus =
      checked_add-bind (pos (n / p)) (pos 1) invalid _ {r = some r} (rw (div_pos n p) at div) in
    let times =
      checked_mul-bind (pos (n / p + 1)) (pos p) invalid _ {r = some r}
        (rw (add_pos (n / p) 1) at plus) in
    (
      positive,
      checked_add-some anchor (pos ((n / p + 1) * p)) (cc (rw (mul_pos (n / p + 1) p) at times)),
    )

-- The first case of the arm: the anchor is still to come.
next_interval-earlier :
    (anchor : ℤ) (every : ℕ) (after : ℤ) {r : ℤ}
    → after <ℤ anchor
    → next_interval anchor every after ≡ ok (some r)
    → (0 < every) × (r ≡ anchor)
next_interval-earlier anchor every after {r} h e =
    let (positive, from) = next_interval-from_period anchor every after {r = some r} e in
    let waiting : ltb_ℤ after anchor ≡ true = ground arith in (positive, cc (rw waiting at from))

abbrev period_ms : ℕ → ℕ
period_ms every = every * 1000

pub next_multiple : (n p : ℕ) → 0 < p → (n < (n / p + 1) * p) × ((n / p + 1) * p ≤ n + p)
next_multiple n p h = grind (arith, div-add-mod n p, mod-lt)

least_multiple : (n p j : ℕ) → 0 < p → n < j * p → n / p + 1 ≤ j
least_multiple n p j h lt = grind (arith, div-add-mod n p)

grid-zero : (anchor : ℤ) (p : ℕ) → anchor ≡ anchor +ℤ pos (0 * p)
grid-zero anchor p = eq_of_parts anchor (anchor +ℤ pos (0 * p)) (omega int_laws)

after-lt-grid :
    (anchor after : ℤ) (m : ℕ)
    → anchor ≤ℤ after
    → elapsed_ms anchor after < m
    → after <ℤ anchor +ℤ pos m
after-lt-grid anchor after m h lt = omega int_laws

elapsed_ms-lt :
    (anchor after : ℤ) (m : ℕ)
    → anchor ≤ℤ after
    → after <ℤ anchor +ℤ pos m
    → elapsed_ms anchor after < m
elapsed_ms-lt anchor after m h lt = omega int_laws

-- An occurrence of an interval schedule after a cursor is the first instant after the cursor of the
-- grid from the anchor in steps of the interval: a multiple of the period after the anchor, later
-- than the cursor, and no smaller multiple is later than the cursor.
pub next_interval-first :
    (anchor : ℤ) (every : ℕ) (after : ℤ) {r : ℤ}
    → next_interval anchor every after ≡ ok (some r)
    → (k : ℕ) × (r ≡ anchor +ℤ pos (k * period_ms every))
      × (after <ℤ r)
      × ((j : ℕ) → after <ℤ anchor +ℤ pos (j * period_ms every) → k ≤ j)
next_interval-first anchor every after {r} e = elim (Bool-cases (ltb_ℤ after anchor)) [
  | inl waiting ↦
      let (positive, same) = next_interval-earlier anchor every after {r = r} (ground arith) e in
      (0, same ∙ grid-zero anchor (period_ms every), rw same (ground arith), λ j _. omega arith)
  | inr running ↦
      let (positive, same) = next_interval-later anchor every after {r = r} (ground arith) e in
      let n = elapsed_ms anchor after in
      let p = period_ms every in
      let order : anchor ≤ℤ after = ground arith in
      (
        n / p + 1,
        same,
        rw same (after-lt-grid anchor after _ order (next_multiple n p (omega arith)).0),
        λ j late.
            least_multiple n p j (omega arith) (elapsed_ms-lt anchor after (j * p) order late),
      )
]
