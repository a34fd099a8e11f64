-- ===== src/Routines/Schedule/Tests.antt =====
-- Schedules on concrete instants, in a calendar that knows one timezone without offsets.
use home_bot.Common.{
  ℕ, refl, length, All, List, some, ◌≡◌, arith, ok, ◌*◌, err, ◌++◌, ◌+◌, ◌/◌, ◌∷◌, [], ap, ◌%◌, ◌≤◌,
  ◌↔◌, ◌<◌, filterb,
}
use home_bot.Common.Int.{
  checked_div, pos, ℤ, ◌+ℤ◌, pos_part, ◌*ℤ◌, checked_add, int_laws, ◌<ℤ◌, checked_sub, checked_mul,
  neg_part, ◌≤ℤ◌, saturating_sub, div_ℤ, ◌-ℤ◌,
}
use home_bot.Routines.Schedule.Due.{due_occurrences, grace_i64, select}
use home_bot.Routines.Schedule.Defs.{
  Calendar, RoutineSchedule, next_interval, next_local, catch_up, interval, next_occurrence,
  scan_days, skip, try_day, scan_limit, single, run_once, max_occurrence_scan,
}
use home_bot.Routines.Schedule.Window.{CronIsLater, Rising, due_occurrences-suffix}
use home_bot.Routines.Schedule.Local.{IsWallTime, IsFirst, next_local-IsFirst}
use home_bot.Routines.Schedule.Scan.{Scan, is_missed, is_recent, due_occurrences_iff}
use home_bot.Common.Text.{codes}
use home_bot.Routines.Schedule.Backlog.{due_occurrences_backlog}
use home_bot.Routines.Schedule.Interval.{next_interval-first}

abbrev day_ms : ℕ
day_ms = 86400000

abbrev utc : Calendar
utc = record {
  Tz = Unit {0};
  Instant = ℤ;
  Date = ℕ;
  Cron = Unit {0};
  parse_timezone = λ name. some tt;
  from_timestamp_millis = λ t. some t;
  date_naive = λ tz t. pos_part t / day_ms;
  checked_add_days = λ date days. some (date + days);
  number_from_monday = λ date. (date + 3) % 7 + 1;
  with_ymd_and_hms =
      λ tz date hour minute. single (pos (date * day_ms + hour * 3600000 + minute * 60000));
  parse_cron = λ expression. some tt;
  find_next_occurrence = λ cron tz t. some (t +ℤ pos 60000);
}

utc-CronIsLater : CronIsLater utc
utc-CronIsLater cron tz instant after t i h =
    let same : instant ≡ after = ground arith in
    let found : instant +ℤ pos 60000 ≡ t = ground arith in
    omega (int_laws, ap pos_part same, ap neg_part same, ap pos_part found, ap neg_part found)

-- The cases of the source's tests.
every_minute : RoutineSchedule
every_minute = interval (pos 0) 60

skip_returns_recent :
    due_occurrences utc every_minute (pos 0) (pos 300000) 30000 skip 3 ≡ ok (pos 300000 ∷ [])
unfolding due_occurrences next_occurrence every_minute ◌+ℤ◌ ◌*ℤ◌ checked_add checked_sub checked_mul
    checked_div div_ℤ
skip_returns_recent = refl

run_once_returns_last :
    due_occurrences utc every_minute (pos 0) (pos 300000) 0 run_once 3 ≡ ok (pos 300000 ∷ [])
unfolding due_occurrences next_occurrence every_minute ◌+ℤ◌ ◌*ℤ◌ checked_add checked_sub checked_mul
    checked_div div_ℤ
run_once_returns_last = refl

two_caught_up :
    due_occurrences utc every_minute (pos 0) (pos 300000) 0 catch_up 2
    ≡ ok (pos 240000 ∷ pos 300000 ∷ [])
unfolding due_occurrences next_occurrence every_minute ◌+ℤ◌ ◌*ℤ◌ checked_add checked_sub checked_mul
    checked_div div_ℤ
two_caught_up = refl

interval_after_cursor : next_interval (pos 10) 2 (pos 2010) ≡ ok (some (pos 4010))
unfolding next_interval ◌+ℤ◌ ◌-ℤ◌ ◌*ℤ◌ checked_add checked_sub checked_mul checked_div div_ℤ
interval_after_cursor = refl

next_interval-first_example :
    (k : ℕ) × (pos 4010 ≡ pos 10 +ℤ pos (k * 2000))
    × (pos 2010 <ℤ pos 4010)
    × ((j : ℕ) → pos 2010 <ℤ pos 10 +ℤ pos (j * 2000) → k ≤ j)
next_interval-first_example = next_interval-first (pos 10) 2 (pos 2010) interval_after_cursor

due_occurrences_iff_example :
    (due_occurrences utc every_minute (pos 0) (pos 300000) 0 catch_up 2
      ≡ ok (pos 240000 ∷ pos 300000 ∷ []))
    ↔ ((xs : List ℤ) × Scan (next_occurrence utc every_minute) (pos 300000) (pos 0) xs
        × (length xs < max_occurrence_scan)
        × (let boundary = saturating_sub (pos 300000) (grace_i64 0) in
            pos 240000 ∷ pos 300000 ∷ []
            ≡ select catch_up 2 (filterb (is_missed boundary) xs)
              ++ filterb (is_recent boundary) xs))
due_occurrences_iff_example =
    due_occurrences_iff utc every_minute (pos 0) (pos 300000) 0 catch_up 2
      (pos 240000 ∷ pos 300000 ∷ []) (omega arith)

due_occurrences-suffix_example :
    (dropped : List ℤ) × Scan
      (next_occurrence utc every_minute)
      (pos 300000)
      (pos 0)
      (dropped ++ pos 240000 ∷ pos 300000 ∷ [])
    × Rising (pos 0) (pos 240000 ∷ pos 300000 ∷ [])
    × All (λ t. t ≤ℤ pos 300000) (pos 240000 ∷ pos 300000 ∷ [])
due_occurrences-suffix_example =
    due_occurrences-suffix utc every_minute (pos 0) (pos 300000) 0 catch_up 2
      (pos 240000 ∷ pos 300000 ∷ []) utc-CronIsLater (omega arith) two_caught_up

due_occurrences_backlog_example :
    due_occurrences utc (interval (pos 0) 1) (pos 5000) (pos 10005000) 30000 skip 1 ≡ err scan_limit
due_occurrences_backlog_example =
    due_occurrences_backlog utc 0 1 5000 10005000 30000 skip 1 (omega arith) (omega arith)
      (omega arith) (omega arith)

-- Monday 5 January 1970 at 8:00 follows Thursday 1 January.
mondays :
    next_local utc (codes "UTC") (some 1) 8 0 (pos 3600000) ≡ ok (pos (4 * day_ms + 8 * 3600000))
unfolding next_local scan_days try_day
mondays = refl

next_local-IsFirst_example :
    IsWallTime (some 1) 8 0
    × ((tz : Unit {0}) × (instant : ℤ) × (utc.parse_timezone (codes "UTC") ≡ some tz)
        × (utc.from_timestamp_millis (pos 3600000) ≡ some instant)
        × IsFirst utc tz
            (some 1)
            8
            0
            (pos 3600000)
            (utc.date_naive tz instant)
            0
            3671
            (pos (4 * day_ms + 8 * 3600000)))
next_local-IsFirst_example = next_local-IsFirst utc (codes "UTC") (some 1) 8 0 (pos 3600000) mondays
