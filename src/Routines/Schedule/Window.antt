-- ===== src/Routines/Schedule/Window.antt =====
-- The instants that `due_occurrences` (crates/homebot-routines/src/schedule.rs) returns.
use mathlib.Core.List.{reverse, append_assoc, append-nil, reverse-append, reverse-reverse}
use mathlib.Core.Path.{subst}
use home_bot.Common.{
  ℕ, zero, suc, ◌≡◌, refl, sym, ap, ◌∙◌, false, Option, none, some, List, [], ◌∷◌, ◌++◌, arith, inl,
  inr, Bool-cases, filterb, take, All, Result, ok, err, ◌>>=◌, ok_or-bind, accepted, ok_or-ok,
}
use home_bot.Common.Int.{ℤ, ◌≤ℤ◌, ◌<ℤ◌, leb_ℤ, saturating_sub}
use home_bot.Common.Text.{Text}
use home_bot.Routines.Schedule.Defs.{
  RoutineSchedule, one_shot, interval, daily_local, weekly_local, cron, MissedRunPolicy, skip,
  run_once, catch_up, ScheduleError, Calendar, next_local, next_cron, next_occurrence,
}
use home_bot.Routines.Schedule.Due.{
  select, due_occurrences, take_last, last?, to_list, at_least_one, grace_i64,
}
use home_bot.Routines.Schedule.Interval.{next_interval-first}
use home_bot.Routines.Schedule.Local.{next_local-IsFirst}
use home_bot.Routines.Schedule.Scan.{
  Scan, finished, ahead, more, is_missed, is_recent, due_occurrences_iff,
}

-- croner's `find_next_occurrence` with `inclusive` false is strictly after the instant it is given.
abbrev pub CronIsLater : Calendar → Type 0
CronIsLater c =
    (parsed : c.Cron) (tz : c.Tz) (instant : c.Instant) (after t : ℤ)
    → c.from_timestamp_millis after ≡ some instant
    → c.find_next_occurrence parsed tz instant ≡ some t
    → after <ℤ t

map-some {ℓ} :
    {E : Type ℓ} (r : Result E ℤ) {t : ℤ} → (r >>= λ u. ok (some u)) ≡ ok (some t) → r ≡ ok t
map-some (ok a) h = ground arith
map-some (err e) h = absurd (cc)

next_cron-later :
    (c : Calendar) (expression timezone : Text) (after : ℤ) {t : ℤ}
    → CronIsLater c
    → next_cron c expression timezone after ≡ ok t
    → after <ℤ t
unfolding next_cron
next_cron-later c expression timezone after {t} later h =
    let (tz, _, a) = ok_or-bind (c.parse_timezone timezone) _ _ {r = t} (accepted _ _ _ h) in
    let (instant, i, b) = ok_or-bind (c.from_timestamp_millis after) _ _ {r = t} a in
    let (parsed, _, d) = ok_or-bind (c.parse_cron expression) _ _ {r = t} b in
    later parsed tz instant after t i (ok_or-ok (c.find_next_occurrence parsed tz instant) _ d)

-- The next occurrence of a schedule of any kind is strictly after the cursor.
next_occurrence-later :
    (c : Calendar) (schedule : RoutineSchedule) (after : ℤ) {t : ℤ}
    → CronIsLater c
    → next_occurrence c schedule after ≡ ok (some t)
    → after <ℤ t
unfolding next_occurrence
next_occurrence-later c (one_shot at) after later h = ground arith
next_occurrence-later c (interval anchor every) after {t} later h =
    (next_interval-first anchor every after {r = t} h).2
next_occurrence-later c (daily_local tz hour minute) after {t} later h =
    (next_local-IsFirst c tz none hour minute after {t = t}
      (map-some (next_local c tz none hour minute after) h)).1.4.fires.later
next_occurrence-later c (weekly_local tz weekday hour minute) after {t} later h =
    (next_local-IsFirst c tz (some weekday) hour minute after {t = t}
      (map-some (next_local c tz (some weekday) hour minute after) h)).1.4.fires.later
next_occurrence-later c (cron expression tz) after {t} later h =
    next_cron-later c expression tz after {t = t} later
      (map-some (next_cron c expression tz after) h)

-- Each instant is later than the one before, and the first one than the bound.
abbrev pub Rising : ℤ → List ℤ → Type 0
Rising lo [] = Unit {0}
Rising lo (x ∷ xs) = (lo <ℤ x) × Rising x xs

module _ (next : ℤ → Result ScheduleError (Option ℤ)) (now : ℤ)
    (later : (cursor t : ℤ) → next cursor ≡ ok (some t) → cursor <ℤ t) where
  Scan-Rising : {cursor : ℤ} {xs : List ℤ} → Scan next now cursor xs → Rising cursor xs
  Scan-Rising (finished e) = tt
  Scan-Rising (ahead e p) = tt
  Scan-Rising {xs = t ∷ xs} (more {cursor = cursor} e p s) = (later cursor t e, Scan-Rising s)

Scan-until :
    (next : ℤ → Result ScheduleError (Option ℤ)) (now : ℤ) {cursor : ℤ} {xs : List ℤ}
    → Scan next now cursor xs
    → All (λ t. t ≤ℤ now) xs
Scan-until next now (finished e) = tt
Scan-until next now (ahead e p) = tt
Scan-until next now (more e p s) = (ground arith, Scan-until next now s)

Rising-lower : (lo hi : ℤ) (xs : List ℤ) → lo ≤ℤ hi → Rising hi xs → Rising lo xs
Rising-lower lo hi [] h r = tt
Rising-lower lo hi (x ∷ xs) h r = (omega arith, r.1)

Rising-suffix : (lo : ℤ) (xs ys : List ℤ) → Rising lo (xs ++ ys) → Rising lo ys
Rising-suffix lo [] ys r = r
Rising-suffix lo (x ∷ xs) ys r = Rising-lower lo x ys (omega arith) (Rising-suffix x xs ys r.1)

All-suffix {κ} : (P : ℤ → Type κ) (xs ys : List ℤ) → All P (xs ++ ys) → All P ys
All-suffix P [] ys h = h
All-suffix P (x ∷ xs) ys h = All-suffix P xs ys h.1

recent_all :
    (boundary lo : ℤ) (xs : List ℤ)
    → boundary ≤ℤ lo
    → Rising lo xs
    → (filterb (is_missed boundary) xs ≡ []) × (filterb (is_recent boundary) xs ≡ xs)
recent_all boundary lo [] h r = (refl, refl)
recent_all boundary lo (x ∷ xs) h r =
    let (none_missed, all_recent) = recent_all boundary x xs (omega arith) r.1 in
    let recent : leb_ℤ x boundary ≡ false = ground arith in
    (rw recent none_missed, rw recent (ap (◌∷◌ x) all_recent))

-- In a rising list the missed instants stand before the recent ones.
missed_before_recent :
    (boundary lo : ℤ) (xs : List ℤ)
    → Rising lo xs
    → filterb (is_missed boundary) xs ++ filterb (is_recent boundary) xs ≡ xs
missed_before_recent boundary lo [] r = refl
missed_before_recent boundary lo (x ∷ xs) r = elim (Bool-cases (leb_ℤ x boundary)) [
  | inl missed ↦ rw missed (ap (◌∷◌ x) (missed_before_recent boundary x xs r.1))
  | inr recent ↦
      let (none_missed, all_recent) = recent_all boundary x xs (ground arith) r.1 in
      rw (recent, none_missed, all_recent)
]

init? : List ℤ → List ℤ
init? [] = []
init? (x ∷ []) = []
init? (x ∷ y ∷ xs) = x ∷ init? (y ∷ xs)

init-last : (xs : List ℤ) → xs ≡ init? xs ++ to_list (last? xs)
unfolding init?
init-last [] = refl
init-last (x ∷ []) = refl
init-last (x ∷ y ∷ xs) = ap (◌∷◌ x) (init-last (y ∷ xs))

drop_rest : ℕ → List ℤ → List ℤ
drop_rest zero xs = xs
drop_rest (suc n) [] = []
drop_rest (suc n) (x ∷ xs) = drop_rest n xs

take-append-rest : (n : ℕ) (xs : List ℤ) → take n xs ++ drop_rest n xs ≡ xs
unfolding drop_rest
take-append-rest zero xs = refl
take-append-rest (suc n) [] = refl
take-append-rest (suc n) (x ∷ xs) = ap (◌∷◌ x) (take-append-rest n xs)

take_last-suffix : (n : ℕ) (xs : List ℤ) → xs ≡ reverse (drop_rest n (reverse xs)) ++ take_last n xs
take_last-suffix n xs =
    sym (reverse-reverse xs)
    ∙ ap reverse (sym (take-append-rest n (reverse xs)))
    ∙ reverse-append (take n (reverse xs)) (drop_rest n (reverse xs))

-- What a policy picks of the missed instants is the end of their list.
select-suffix :
    (policy : MissedRunPolicy) (limit : ℕ) (xs : List ℤ)
    → (dropped : List ℤ) × (xs ≡ dropped ++ select policy limit xs)
unfolding select
select-suffix skip limit xs = (xs, sym (append-nil xs))
select-suffix run_once limit xs = (init? xs, init-last xs)
select-suffix catch_up limit xs = (
  reverse (drop_rest (at_least_one limit) (reverse xs)),
  take_last-suffix (at_least_one limit) xs,
)

-- Where croner finds instants that are strictly later, the list that `due_occurrences` returns for a
-- cursor before now is the end of the list of all the occurrences after the cursor and not after now;
-- each of its instants is later than the one before, the first one later than the cursor, and none
-- is later than now.
pub due_occurrences-suffix :
    (c : Calendar) (schedule : RoutineSchedule) (after now : ℤ) (grace : ℕ)
    (policy : MissedRunPolicy) (limit : ℕ) (ys : List ℤ)
    → CronIsLater c
    → after <ℤ now
    → due_occurrences c schedule after now grace policy limit ≡ ok ys
    → (dropped : List ℤ) × Scan (next_occurrence c schedule) now after (dropped ++ ys)
      × Rising after ys
      × All (λ t. t ≤ℤ now) ys
due_occurrences-suffix c schedule after now grace policy limit ys later h e =
    let next = next_occurrence c schedule in
    let boundary = saturating_sub now (grace_i64 grace) in
    let (xs, s, _, same) = (due_occurrences_iff c schedule after now grace policy limit ys h).0 e in
    let (dropped, split) = select-suffix policy limit (filterb (is_missed boundary) xs) in
    let rising =
      Scan-Rising next now (λ cursor t. next_occurrence-later c schedule cursor {t = t} later) s in
    let whole : xs ≡ dropped ++ ys =
      sym (missed_before_recent boundary after xs rising)
      ∙ ap (λ (l : List ℤ). l ++ filterb (is_recent boundary) xs) split
      ∙ append_assoc dropped _ _
      ∙ ap (◌++◌ dropped) (sym same) in
    (
      dropped,
      subst (Scan next now after) whole s,
      Rising-suffix after dropped ys (subst (Rising after) whole rising),
      All-suffix (λ t. t ≤ℤ now) dropped ys
          (subst (All (λ t. t ≤ℤ now)) whole (Scan-until next now s)),
    )
