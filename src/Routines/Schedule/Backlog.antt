-- ===== src/Routines/Schedule/Backlog.antt =====
-- A long backlog of an interval schedule (crates/homebot-routines/src/schedule.rs, whose error the
-- scheduler of crates/homebot-server/src/scheduler.rs answers by leaving the trigger's cursor alone).
use home_bot.Common.{
  ℕ, zero, suc, ◌+◌, ◌-◌, ◌*◌, ◌/◌, ◌≤◌, ◌<◌, ◌≡◌, refl, ◌∙◌, false, Option, some, List, [], arith,
  inl, inr, Bool-cases, Result, ok, err, ◌==◌, leb,
}
use home_bot.Common.Int.{
  ℤ, pos, ltb_ℤ, leb_ℤ, saturating_sub, checked, checked_add, checked_sub, checked_mul, checked_div,
  ◌-ℤ◌,
}
use home_bot.Routines.Schedule.Defs.{
  interval, MissedRunPolicy, ScheduleError, scan_limit, Calendar, next_interval, next_occurrence,
  max_occurrence_scan,
}
use home_bot.Routines.Schedule.Due.{due_loop, due_occurrences, grace_i64}
use home_bot.Routines.Schedule.Interval.{mul_pos, div_pos, add_pos, next_multiple}
use home_bot.Routines.Schedule.Scan.{due_occurrences-due_loop}

abbrev i64_top : ℕ
i64_top = 9223372036854775807

checked-pos : (m : ℕ) → m ≤ i64_top → checked (pos m) ≡ some (pos m)
checked-pos m h = ground arith

checked_add-pos : (a b : ℕ) → a + b ≤ i64_top → checked_add (pos a) (pos b) ≡ some (pos (a + b))
unfolding checked_add
checked_add-pos a b h = rw (add_pos a b) (checked-pos (a + b) h)

checked_sub-pos : (a b : ℕ) → b ≤ a → a ≤ i64_top → checked_sub (pos a) (pos b) ≡ some (pos (a - b))
unfolding checked_sub ◌-ℤ◌
checked_sub-pos a b h k = ground arith

checked_mul-pos : (a b : ℕ) → a * b ≤ i64_top → checked_mul (pos a) (pos b) ≡ some (pos (a * b))
unfolding checked_mul
checked_mul-pos a b h = rw (mul_pos a b) (checked-pos (a * b) h)

checked_div-pos :
    (a b : ℕ) → 0 < b → a / b ≤ i64_top → checked_div (pos a) (pos b) ≡ some (pos (a / b))
unfolding checked_div
checked_div-pos a b h k =
    let divisor : leb (b + 0) 0 ≡ false = ground arith in
    rw divisor (rw (div_pos a b) (checked-pos (a / b) k))

-- The occurrence of an interval schedule that is anchored at or before the cursor.
abbrev following : ℕ → ℕ → ℕ → ℕ
following a p c = a + ((c - a) / p + 1) * p

next_interval-following :
    (a every c : ℕ)
    → 0 < every
    → a ≤ c
    → c + every * 1000 ≤ i64_top
    → next_interval (pos a) every (pos c) ≡ ok (some (pos (following a (every * 1000) c)))
unfolding next_interval
next_interval-following a every c positive order room =
    let p = every * 1000 in
    let n = c - a in
    let bounds = next_multiple n p (omega arith) in
    let small : n / p + 1 ≤ (n / p + 1) * p = grind arith in
    let some_time : (every == 0) ≡ false = ground arith in
    let running : ltb_ℤ (pos c) (pos a) ≡ false = ground arith in
    rw (some_time, checked_mul-pos every 1000 (omega arith), running)
      (rw
        (
          checked_sub-pos c a order (omega arith),
          checked_div-pos n p (omega arith) (omega (arith, bounds)),
        )
        (rw
          (
            checked_add-pos (n / p) 1 (omega (arith, bounds)),
            checked_mul-pos (n / p + 1) p (omega (arith, bounds)),
          )
          (rw (checked_add-pos a ((n / p + 1) * p) (omega (arith, bounds))) refl)))

-- Every round finds one more occurrence that is not after now, whichever list it goes to.
due_loop-exhausted :
    (next : ℤ → Result ScheduleError (Option ℤ)) (now boundary : ℤ) (policy : MissedRunPolicy)
    (limit a p n : ℕ)
    → now ≡ pos n
    → 0 < p
    → ((c : ℕ) → a ≤ c → c + p ≤ n → next (pos c) ≡ ok (some (pos (following a p c))))
    → (rounds c : ℕ) (missed recent : List ℤ) → a ≤ c
    → c + rounds * p ≤ n
    → due_loop next now boundary policy limit rounds (pos c) missed recent ≡ err scan_limit
unfolding due_loop
due_loop-exhausted next now boundary policy limit a p n same positive step zero c missed recent h
      k =
    refl
due_loop-exhausted next now boundary policy limit a p n same positive step (suc rounds) c missed
      recent h k =
    let bounds = next_multiple (c - a) p positive in
    let here : ltb_ℤ now (pos (following a p c)) ≡ false = rw same (grind (arith, bounds)) in
    let rest = λ (m r : List ℤ).
      due_loop-exhausted next now boundary policy limit a p n same positive step rounds
        (following a p c) m r (omega (arith, bounds)) (grind (arith, bounds)) in
    rw (step c h (grind arith), due_loop)
      (rw (here, due_loop)
        (elim (Bool-cases (leb_ℤ (pos (following a p c)) boundary)) [
          | inl m ↦ rw (m, due_loop) (rest _ _)
          | inr r ↦ rw (r, due_loop) (rest _ _)
        ]))

-- An interval schedule with a backlog of 10,000 periods or more cannot be evaluated: where the anchor
-- is at or before the cursor and 10,000 periods after the cursor are not after now, `due_occurrences`
-- is an error under every missed-run policy, grace and catch-up limit. (The anchor is not before
-- 1970.)
pub due_occurrences_backlog :
    (c : Calendar) (anchor every cursor now grace : ℕ) (policy : MissedRunPolicy) (limit : ℕ)
    → 0 < every
    → anchor ≤ cursor
    → cursor + max_occurrence_scan * (every * 1000) ≤ now
    → now ≤ i64_top
    → due_occurrences c (interval (pos anchor) every) (pos cursor) (pos now) grace policy limit
      ≡ err scan_limit
unfolding next_occurrence
due_occurrences_backlog c anchor every cursor now grace policy limit positive order backlog room =
    due_occurrences-due_loop c (interval (pos anchor) every) (pos cursor) (pos now) grace policy
      limit (omega arith)
    ∙ due_loop-exhausted (next_occurrence c (interval (pos anchor) every)) (pos now)
        (saturating_sub (pos now) (grace_i64 grace)) policy limit anchor (every * 1000) now refl
        (omega arith) (λ k h l. next_interval-following anchor every k positive h (omega arith))
        max_occurrence_scan cursor [] [] order backlog
