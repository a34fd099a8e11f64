-- ===== src/Routines/Schedule/Local.antt =====
-- Daily and weekly schedules (`next_local` of crates/homebot-routines/src/schedule.rs).
use mathlib.Core.Path.{subst}
use home_bot.Common.{
  ◌&&◌, ℕ, zero, suc, ◌+◌, ◌≤◌, ◌<◌, ◌≡◌, refl, ap, ◌∙◌, Bool, false, not, ◌||◌, Option, none, some,
  arith, inl, inr, Bool-cases, Option-cases, ltb, leb, is_some_and, ok, sym, ◌⊎◌,
}
use home_bot.Common.Int.{ℤ, ◌<ℤ◌, eq_of_parts, ◌≤ℤ◌}
use home_bot.Common.Text.{Text}
use home_bot.Routines.Schedule.Defs.{
  ambiguous, nonexistent, single, Calendar, earliest, try_day, scan_days, next_local,
  max_daily_scan_days, LocalResult,
}

-- The parts of a weekday, an hour and a minute that the source accepts.
abbrev pub IsWallTime : Option ℕ → ℕ → ℕ → Type 0
IsWallTime weekday hour minute =
    (hour ≤ 23) × (minute ≤ 59) × ((day : ℕ) → weekday ≡ some day → (1 ≤ day) × (day ≤ 7))

abbrev is_refused : Option ℕ → ℕ → ℕ → Bool
is_refused weekday hour minute =
    ltb 23 hour || ltb 59 minute || is_some_and weekday (λ day. not (leb 1 day && leb day 7))

IsWallTime-accepted :
    (weekday : Option ℕ) (hour minute : ℕ)
    → is_refused weekday hour minute ≡ false
    → IsWallTime weekday hour minute
IsWallTime-accepted none hour minute h = (ground arith, ground arith, λ day e. absurd (cc))
IsWallTime-accepted (some d) hour minute h = (ground arith, ground arith, λ day e. ground arith)

-- The earlier of the instants that a wall time has.
abbrev pub IsEarlier : LocalResult → ℤ → Type 0
IsEarlier (single s) t = t ≡ s
IsEarlier (ambiguous s u) t = ((t ≡ s) ⊎ (t ≡ u)) × (t ≤ℤ s) × (t ≤ℤ u)
IsEarlier nonexistent t = ⊥

earliest-IsEarlier : (r : LocalResult) {t : ℤ} → earliest r ≡ some t → IsEarlier r t
earliest-IsEarlier (single s) h = ground arith
earliest-IsEarlier (ambiguous s u) h = ground arith
earliest-IsEarlier nonexistent h = absurd (cc)

IsEarlier-earliest : (r : LocalResult) (t : ℤ) → IsEarlier r t → earliest r ≡ some t
IsEarlier-earliest (single s) t h = ap some (sym h)
IsEarlier-earliest (ambiguous s u) t (inl same, low, high) =
    ground (arith, eq_of_parts s t, eq_of_parts u t)
IsEarlier-earliest (ambiguous s u) t (inr same, low, high) =
    ground (arith, eq_of_parts s t, eq_of_parts u t)
IsEarlier-earliest nonexistent t h = absurd h

module _ (c : Calendar) where
  -- The day at an offset from the first one has an occurrence at `t`: its weekday is the one asked
  -- for, the wall time exists on it, `t` is its earlier instant, and `t` is later than the cursor.
  pub record Fires (tz : c.Tz) (weekday : Option ℕ) (hour minute : ℕ) (after : ℤ) (start : c.Date)
      (offset : ℕ) (t : ℤ) : Type 0 where
    pub date : c.Date
    pub on_calendar : c.checked_add_days start offset ≡ some date
    pub on_weekday : (day : ℕ) → weekday ≡ some day → c.number_from_monday date ≡ day
    pub earlier_instant : IsEarlier (c.with_ymd_and_hms tz date hour minute) t
    pub later : after <ℤ t

  try_day-some :
      (tz : c.Tz) (weekday : Option ℕ) (hour minute : ℕ) (after : ℤ) (date : c.Date) {t : ℤ}
      → try_day c tz weekday hour minute after date ≡ some t
      → ((day : ℕ) → weekday ≡ some day → c.number_from_monday date ≡ day)
        × (earliest (c.with_ymd_and_hms tz date hour minute) ≡ some t)
        × (after <ℤ t)
  unfolding try_day
  try_day-some tz none hour minute after date h = (λ day e. absurd (cc), ground arith, ground arith)
  try_day-some tz (some d) hour minute after date h =
      (λ day e. ground arith, ground arith, ground arith)

  try_day-none :
      (tz : c.Tz) (weekday : Option ℕ) (hour minute : ℕ) (after : ℤ) (start : c.Date) (offset : ℕ)
      (date : c.Date) (t : ℤ)
      → c.checked_add_days start offset ≡ some date
      → try_day c tz weekday hour minute after date ≡ none
      → ¬ Fires tz weekday hour minute after start offset t
  unfolding try_day
  try_day-none tz none hour minute after start offset date t d h f =
      let instant = IsEarlier-earliest _ t f.earlier_instant in
      ground (arith, f.on_calendar, instant, f.later)
  try_day-none tz (some day) hour minute after start offset date t d h f =
      let instant = IsEarlier-earliest _ t f.earlier_instant in
      ground (arith, f.on_calendar, instant, f.later, f.on_weekday day refl)

  -- The first day, counted from an offset, that fires.
  pub record IsFirst (tz : c.Tz) (weekday : Option ℕ) (hour minute : ℕ) (after : ℤ) (start : c.Date)
      (offset days : ℕ) (t : ℤ) : Type 0 where
    pub day : ℕ
    pub reached : offset ≤ day
    pub in_range : day < offset + days
    pub fires : Fires tz weekday hour minute after start day t
    pub first :
        (j : ℕ) (u : ℤ) → offset ≤ j → j < day → ¬ Fires tz weekday hour minute after start j u

  first_of_rest :
      (tz : c.Tz) (weekday : Option ℕ) (hour minute : ℕ) (after : ℤ) (start : c.Date)
      (offset day : ℕ) (date : c.Date)
      → c.checked_add_days start offset ≡ some date
      → try_day c tz weekday hour minute after date ≡ none
      → ((j : ℕ) (u : ℤ)
          → suc offset ≤ j
          → j < day
          → ¬ Fires tz weekday hour minute after start j u)
      → (j : ℕ) (u : ℤ) → offset ≤ j
      → j < day
      → ¬ Fires tz weekday hour minute after start j u
  first_of_rest tz weekday hour minute after start offset day date d e rest j u h k =
      elim (Bool-cases (ltb offset j)) [
        | inl later ↦ rest j u (ground arith) k
        | inr here ↦
            let same : offset ≡ j = ground arith in
            try_day-none tz weekday hour minute after start j date u
              (subst (λ i. c.checked_add_days start i ≡ some date) same d) e
      ]

  scan_days-IsFirst :
      (tz : c.Tz) (weekday : Option ℕ) (hour minute : ℕ) (after : ℤ) (start : c.Date)
      (days offset : ℕ) {t : ℤ}
      → scan_days c tz weekday hour minute after start days offset ≡ ok t
      → IsFirst tz weekday hour minute after start offset days t
  unfolding scan_days
  scan_days-IsFirst tz weekday hour minute after start zero offset h = absurd (cc)
  scan_days-IsFirst tz weekday hour minute after start (suc days) offset {t} h =
      elim (Option-cases (c.checked_add_days start offset)) [
        | inl d ↦ absurd (cc (rw (d, scan_days) at h))
        | inr (date, d) ↦ elim (Option-cases (try_day c tz weekday hour minute after date)) [
          | inr (u, e) ↦
              let same : u ≡ t = cc (rw (e, scan_days) at (rw (d, scan_days) at h)) in
              let (day_ok, instant, late) =
                try_day-some tz weekday hour minute after date {t = t} (e ∙ ap some same) in
              record {
                day = offset;
                reached = omega arith;
                in_range = omega arith;
                fires = record {
                  date = date;
                  on_calendar = d;
                  on_weekday = day_ok;
                  earlier_instant = earliest-IsEarlier _ instant;
                  later = late;
                };
                first = λ j v low high _. absurd (omega arith);
              }
          | inl e ↦
              let found =
                scan_days-IsFirst tz weekday hour minute after start days (suc offset) {t = t}
                  (rw (e, scan_days) at (rw (d, scan_days) at h)) in
              record {
                day = found.day;
                reached = omega (arith, found.reached);
                in_range = omega (arith, found.in_range);
                fires = found.fires;
                first =
                    first_of_rest tz weekday hour minute after start offset found.day date d e
                      found.first;
              }
        ]
      ]

  -- A daily or weekly schedule whose next occurrence is `t` has a valid hour, minute and weekday, a
  -- known timezone and a cursor that is a date; `t` is the one instant, or the earlier of the two,
  -- of the wall time on the first day, of the 3,671 from the cursor's local date on, that has the
  -- weekday asked for, has the wall time at all, and has it later than the cursor.
  pub next_local-IsFirst :
      (timezone : Text) (weekday : Option ℕ) (hour minute : ℕ) (after : ℤ) {t : ℤ}
      → next_local c timezone weekday hour minute after ≡ ok t
      → IsWallTime weekday hour minute
        × ((tz : c.Tz) × (instant : c.Instant) × (c.parse_timezone timezone ≡ some tz)
            × (c.from_timestamp_millis after ≡ some instant)
            × IsFirst tz weekday hour minute after
                (c.date_naive tz instant)
                0
                (suc max_daily_scan_days)
                t)
  unfolding next_local
  next_local-IsFirst timezone weekday hour minute after {t} h =
      elim (Bool-cases (is_refused weekday hour minute)) [
        | inl refused ↦ absurd (cc (rw refused at h))
        | inr accepted ↦ elim (Option-cases (c.parse_timezone timezone)) [
          | inl p ↦ absurd (cc (rw p at (rw accepted at h)))
          | inr (tz, p) ↦ elim (Option-cases (c.from_timestamp_millis after)) [
            | inl i ↦ absurd (cc (rw i at (rw p at (rw accepted at h))))
            | inr (instant, i) ↦ (
              IsWallTime-accepted weekday hour minute accepted,
              (
                tz,
                instant,
                p,
                i,
                scan_days-IsFirst tz weekday hour minute after (c.date_naive tz instant)
                    (suc max_daily_scan_days) 0 {t = t} (rw i at (rw p at (rw accepted at h))),
              ),
            )
          ]
        ]
      ]
