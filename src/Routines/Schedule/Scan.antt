-- ===== src/Routines/Schedule/Scan.antt =====
-- `due_occurrences` (crates/homebot-routines/src/schedule.rs) against the list of all the occurrences
-- in its window.
use mathlib.Core.List.{append_assoc, append-nil}
use home_bot.Common.{
  Result-cases, ℕ, zero, suc, ◌<◌, ◌≡◌, sym, ap, ◌∙◌, ◌↔◌, inl, inr, Bool, true, false, not, Option,
  none, some, List, [], ◌∷◌, ◌++◌, arith, length, filterb, Result, ok, Bool-cases,
}
use home_bot.Common.Int.{ℤ, ltb_ℤ, leb_ℤ, ◌<ℤ◌, saturating_sub}
use home_bot.Routines.Schedule.Defs.{
  RoutineSchedule, MissedRunPolicy, ScheduleError, Calendar, next_occurrence, max_occurrence_scan,
}
use home_bot.Routines.Schedule.Due.{apply_missed, select, due_loop, due_occurrences, grace_i64}

abbrev pub is_missed : ℤ → ℤ → Bool
is_missed boundary t = leb_ℤ t boundary

abbrev pub is_recent : ℤ → ℤ → Bool
is_recent boundary t = not (leb_ℤ t boundary)

module _ (next : ℤ → Result ScheduleError (Option ℤ)) (now : ℤ) where
  -- The occurrences from a cursor on that are not later than now, each found from the one before.
  pub data Scan : ℤ → List ℤ → Type 0 where
    finished : {cursor : ℤ} → next cursor ≡ ok none → Scan cursor []
    ahead : {cursor t : ℤ} → next cursor ≡ ok (some t) → ltb_ℤ now t ≡ true → Scan cursor []
    more :
        {cursor t : ℤ} {xs : List ℤ}
        → next cursor ≡ ok (some t)
        → ltb_ℤ now t ≡ false
        → Scan t xs
        → Scan cursor (t ∷ xs)

  module _ (boundary : ℤ) (policy : MissedRunPolicy) (limit : ℕ) where
    abbrev picked : List ℤ → List ℤ → List ℤ → List ℤ
    picked missed recent xs =
        apply_missed (missed ++ filterb (is_missed boundary) xs)
          (recent ++ filterb (is_recent boundary) xs) policy limit

    due_loop_complete :
        (rounds : ℕ) {cursor : ℤ} {xs : List ℤ} (missed recent : List ℤ)
        → Scan cursor xs
        → length xs < rounds
        → due_loop next now boundary policy limit rounds cursor missed recent
          ≡ ok (picked missed recent xs)
    unfolding due_loop
    due_loop_complete zero missed recent s h = absurd (omega arith)
    due_loop_complete (suc rounds) missed recent (finished e) h = rw (e, due_loop) (simp append-nil)
    due_loop_complete (suc rounds) missed recent (ahead e p) h =
        rw (e, due_loop) (rw (p, due_loop) (simp append-nil))
    due_loop_complete (suc rounds) {xs = t ∷ xs} missed recent (more e p s) h =
        elim (Bool-cases (leb_ℤ t boundary)) [
          | inl m ↦
              rw (e, due_loop)
                (rw (p, due_loop)
                  (rw (m, due_loop)
                    (due_loop_complete rounds (missed ++ t ∷ []) recent s (omega arith)
                      ∙ simp append_assoc)))
          | inr r ↦
              rw (e, due_loop)
                (rw (p, due_loop)
                  (rw (r, due_loop)
                    (due_loop_complete rounds missed (recent ++ t ∷ []) s (omega arith)
                      ∙ simp append_assoc)))
        ]

    abbrev Found : ℕ → ℤ → List ℤ → List ℤ → List ℤ → Type 0
    Found rounds cursor missed recent ys =
        (xs : List ℤ) × Scan cursor xs × (length xs < rounds) × (ys ≡ picked missed recent xs)

    due_loop_sound :
        (rounds : ℕ) (cursor : ℤ) (missed recent : List ℤ) {ys : List ℤ}
        → due_loop next now boundary policy limit rounds cursor missed recent ≡ ok ys
        → Found rounds cursor missed recent ys
    unfolding due_loop
    due_loop_sound zero cursor missed recent h = absurd (cc)
    due_loop_sound (suc rounds) cursor missed recent {ys} h = elim (Result-cases (next cursor)) [
      | inr (bad, e) ↦ absurd (cc (rw (e, due_loop) at h))
      | inl (none, e) ↦ ([], finished e, omega arith, simp append-nil (cc (rw (e, due_loop) at h)))
      | inl (some t, e) ↦ elim (Bool-cases (ltb_ℤ now t)) [
        | inl p ↦ (
          [],
          ahead e p,
          omega arith,
          simp append-nil (cc (rw (p, due_loop) at (rw (e, due_loop) at h))),
        )
        | inr p ↦ elim (Bool-cases (leb_ℤ t boundary)) [
          | inl m ↦
              let (xs, s, short, same) =
                due_loop_sound rounds t (missed ++ t ∷ []) recent {ys = ys}
                  (rw (m, due_loop) at (rw (p, due_loop) at (rw (e, due_loop) at h))) in
              (t ∷ xs, more e p s, omega arith, same ∙ rw m (simp append_assoc))
          | inr m ↦
              let (xs, s, short, same) =
                due_loop_sound rounds t missed (recent ++ t ∷ []) {ys = ys}
                  (rw (m, due_loop) at (rw (p, due_loop) at (rw (e, due_loop) at h))) in
              (t ∷ xs, more e p s, omega arith, same ∙ rw m (simp append_assoc))
        ]
      ]
    ]

pub due_occurrences-due_loop :
    (c : Calendar) (schedule : RoutineSchedule) (after now : ℤ) (grace : ℕ)
    (policy : MissedRunPolicy) (limit : ℕ)
    → after <ℤ now
    → due_occurrences c schedule after now grace policy limit
      ≡ due_loop
          (next_occurrence c schedule)
          now
          (saturating_sub now (grace_i64 grace))
          policy
          limit
          max_occurrence_scan
          after
          []
          []
unfolding due_occurrences
due_occurrences-due_loop c schedule after now grace policy limit h =
    let running : leb_ℤ now after ≡ false = ground arith in rw running

-- `due_occurrences` after a cursor that is earlier than now returns a list exactly when the occurrences
-- after the cursor and not after now are fewer than 10,000 and all found without an error; the list
-- then holds, of those at or before the grace boundary, the ones that the missed-run policy picks,
-- and behind them all of those after it.
pub due_occurrences_iff :
    (c : Calendar) (schedule : RoutineSchedule) (after now : ℤ) (grace : ℕ)
    (policy : MissedRunPolicy) (limit : ℕ) (ys : List ℤ)
    → after <ℤ now
    → (due_occurrences c schedule after now grace policy limit ≡ ok ys) ↔ (
        (xs : List ℤ) × Scan (next_occurrence c schedule) now after xs
        × (length xs < max_occurrence_scan)
        × (let boundary = saturating_sub now (grace_i64 grace) in
            ys
            ≡ select policy limit (filterb (is_missed boundary) xs)
              ++ filterb (is_recent boundary) xs))
unfolding apply_missed
due_occurrences_iff c schedule after now grace policy limit ys h =
    let next = next_occurrence c schedule in
    let boundary = saturating_sub now (grace_i64 grace) in
    let same = due_occurrences-due_loop c schedule after now grace policy limit h in
    (
      λ e.
          due_loop_sound next now boundary policy limit max_occurrence_scan after [] []
            (sym same ∙ e),
      λ (xs, s, short, e).
          same
          ∙ due_loop_complete next now boundary policy limit max_occurrence_scan [] [] s short
          ∙ ap ok (sym e),
    )
