-- ===== src/Routines/Schedule/Due.antt =====
-- crates/homebot-routines/src/schedule.rs: `due_occurrences` and `apply_missed`.
use mathlib.Core.List.{reverse}
use home_bot.Common.{
  ℕ, zero, suc, true, false, Option, none, some, List, [], ◌∷◌, ◌++◌, ltb, if◌then◌else◌, take,
  Result, ok, err,
}
use home_bot.Common.Int.{ℤ, pos, ltb_ℤ, leb_ℤ, saturating_sub}
use home_bot.Routines.Schedule.Defs.{
  RoutineSchedule, MissedRunPolicy, skip, run_once, catch_up, ScheduleError, scan_limit, Calendar,
  next_occurrence, max_occurrence_scan,
}

abbrev pub to_list {ℓ} : {A : Type ℓ} → Option A → List A
to_list none = []
to_list (some a) = a ∷ []

abbrev pub last? {ℓ} : {A : Type ℓ} → List A → Option A
last? [] = none
last? (x ∷ []) = some x
last? (x ∷ y ∷ xs) = last? (y ∷ xs)

-- `rev().take(n)` and `rev()` again.
abbrev pub take_last {ℓ} : {A : Type ℓ} → ℕ → List A → List A
take_last n xs = reverse (take n (reverse xs))

abbrev pub at_least_one : ℕ → ℕ
at_least_one n = if ltb n 1 then 1 else n

-- The match of `apply_missed` on the policy.
unfoldable pub select : MissedRunPolicy → ℕ → List ℤ → List ℤ
select skip limit missed = []
select run_once limit missed = to_list (last? missed)
select catch_up limit missed = take_last (at_least_one limit) missed

unfoldable pub apply_missed : List ℤ → List ℤ → MissedRunPolicy → ℕ → List ℤ
unfolding select
apply_missed missed recent policy limit = select policy limit missed ++ recent

-- `i64::try_from(grace_ms).unwrap_or(i64::MAX)`.
abbrev pub grace_i64 : ℕ → ℤ
grace_i64 grace = if ltb 9223372036854775807 grace then pos 9223372036854775807 else pos grace

module _ (next : ℤ → Result ScheduleError (Option ℤ)) (now boundary : ℤ) where
  -- The loop with the number of rounds left, the cursor and the two lists.
  unfoldable pub due_loop :
      MissedRunPolicy → ℕ → ℕ → ℤ → List ℤ → List ℤ → Result ScheduleError (List ℤ)
  unfolding apply_missed
  due_loop policy limit zero cursor missed recent = err scan_limit
  due_loop policy limit (suc rounds) cursor missed recent = elim (next cursor) [
    | err e ↦ err e
    | ok none ↦ ok (apply_missed missed recent policy limit)
    | ok (some t) ↦ elim (ltb_ℤ now t) [
      | true ↦ ok (apply_missed missed recent policy limit)
      | false ↦ elim (leb_ℤ t boundary) [
        | true ↦ due_loop policy limit rounds t (missed ++ t ∷ []) recent
        | false ↦ due_loop policy limit rounds t missed (recent ++ t ∷ [])
      ]
    ]
  ]

unfoldable pub due_occurrences :
    Calendar → RoutineSchedule → ℤ → ℤ → ℕ → MissedRunPolicy → ℕ → Result ScheduleError (List ℤ)
unfolding due_loop saturating_sub
due_occurrences c schedule after now grace policy limit =
    if leb_ℤ now after
    then ok []
    else due_loop (next_occurrence c schedule) now (saturating_sub now (grace_i64 grace)) policy
        limit max_occurrence_scan after [] []
