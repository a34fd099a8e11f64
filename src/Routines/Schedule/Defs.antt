-- ===== src/Routines/Schedule/Defs.antt =====
-- crates/homebot-routines/src/schedule.rs: schedules and their next occurrence.
use home_bot.Common.{
  ℕ, zero, suc, not, ◌&&◌, ◌||◌, Option, none, some, ◌==◌, ltb, leb, if◌then◌else◌, is_some_and,
  Result, ok, err, ok_or, ◌>>=◌,
}
use home_bot.Common.Int.{ℤ, pos, ltb_ℤ, checked_add, checked_sub, checked_mul, checked_div}
use home_bot.Common.Text.{Text, text_eq, byte_len, trim}

pub data RoutineSchedule : Type 0 where
  one_shot : ℤ → RoutineSchedule
  interval : (anchor_unix_ms : ℤ) (every_seconds : ℕ) → RoutineSchedule
  daily_local : (timezone : Text) (hour minute : ℕ) → RoutineSchedule
  weekly_local : (timezone : Text) (weekday hour minute : ℕ) → RoutineSchedule
  cron : (expression timezone : Text) → RoutineSchedule

pub data MissedRunPolicy : Type 0 where
  skip run_once catch_up : MissedRunPolicy

pub data ScheduleError : Type 0 where
  invalid unknown_timezone scan_limit : ScheduleError

-- `chrono::LocalResult`, each instant as its timestamp in milliseconds.
pub data LocalResult : Type 0 where
  single : ℤ → LocalResult
  ambiguous : ℤ → ℤ → LocalResult
  nonexistent : LocalResult

-- What the source takes from chrono, chrono-tz and croner.
pub record Calendar : Type 1 where
  pub Tz : Type 0
  pub Instant : Type 0
  pub Date : Type 0
  pub Cron : Type 0
  pub parse_timezone : Text → Option Tz
  pub from_timestamp_millis : ℤ → Option Instant
  pub date_naive : Tz → Instant → Date
  pub checked_add_days : Date → ℕ → Option Date
  pub number_from_monday : Date → ℕ
  pub with_ymd_and_hms : Tz → Date → ℕ → ℕ → LocalResult
  pub parse_cron : Text → Option Cron
  pub find_next_occurrence : Cron → Tz → Instant → Option ℤ

abbrev pub max_occurrence_scan : ℕ
max_occurrence_scan = 10000

abbrev pub max_daily_scan_days : ℕ
max_daily_scan_days = 3670

-- The arm `Interval` of `next_occurrence`.
unfoldable pub next_interval : ℤ → ℕ → ℤ → Result ScheduleError (Option ℤ)
next_interval anchor every_seconds after = if every_seconds == 0 then err invalid else do
  period ← ok_or (checked_mul (pos every_seconds) (pos 1000)) invalid
  if ltb_ℤ after anchor then ok (some anchor) else do
    elapsed ← ok_or (checked_sub after anchor) invalid
    quotient ← ok_or (checked_div elapsed period) invalid
    steps ← ok_or (checked_add quotient (pos 1)) invalid
    product ← ok_or (checked_mul steps period) invalid
    ok (checked_add anchor product)

abbrev pub min_ℤ : ℤ → ℤ → ℤ
min_ℤ a b = if ltb_ℤ b a then b else a

-- The earlier instant of an ambiguous wall time; none in a gap.
abbrev pub earliest : LocalResult → Option ℤ
earliest (single t) = some t
earliest (ambiguous s t) = some (min_ℤ s t)
earliest nonexistent = none

module _ (c : Calendar) where
  -- One day of the scan: `none` where the scan goes on.
  unfoldable pub try_day : c.Tz → Option ℕ → ℕ → ℕ → ℤ → c.Date → Option ℤ
  try_day timezone weekday hour minute after date =
      if is_some_and weekday (λ day. not (c.number_from_monday date == day))
      then none
      else elim (earliest (c.with_ymd_and_hms timezone date hour minute)) [
        | none ↦ none
        | some timestamp ↦ if ltb_ℤ after timestamp then some timestamp else none
      ]

  -- The loop of `next_local` with the number of days left and the offset of the next one.
  unfoldable pub scan_days : c.Tz → Option ℕ → ℕ → ℕ → ℤ → c.Date → ℕ → ℕ → Result ScheduleError ℤ
  scan_days timezone weekday hour minute after start zero offset = err scan_limit
  scan_days timezone weekday hour minute after start (suc days) offset =
      elim (c.checked_add_days start offset) [
        | none ↦ err invalid
        | some date ↦ elim (try_day timezone weekday hour minute after date) [
          | some timestamp ↦ ok timestamp
          | none ↦ scan_days timezone weekday hour minute after start days (suc offset)
        ]
      ]

  unfoldable pub next_local : Text → Option ℕ → ℕ → ℕ → ℤ → Result ScheduleError ℤ
  next_local timezone weekday hour minute after =
      if ltb 23 hour || ltb 59 minute || is_some_and weekday (λ day. not (leb 1 day && leb day 7))
      then err invalid
      else do
        tz ← ok_or (c.parse_timezone timezone) unknown_timezone
        instant ← ok_or (c.from_timestamp_millis after) invalid
        scan_days tz weekday hour minute after (c.date_naive tz instant) (suc max_daily_scan_days) 0

  unfoldable pub next_cron : Text → Text → ℤ → Result ScheduleError ℤ
  next_cron expression timezone after =
      if byte_len expression == 0
        || ltb 256 (byte_len expression)
        || not (text_eq (trim expression) expression)
      then err invalid
      else do
        tz ← ok_or (c.parse_timezone timezone) unknown_timezone
        instant ← ok_or (c.from_timestamp_millis after) invalid
        parsed ← ok_or (c.parse_cron expression) invalid
        ok_or (c.find_next_occurrence parsed tz instant) scan_limit

  unfoldable pub next_occurrence : RoutineSchedule → ℤ → Result ScheduleError (Option ℤ)
  unfolding next_interval next_local next_cron
  next_occurrence (one_shot at) after = ok (if ltb_ℤ after at then some at else none)
  next_occurrence (interval anchor every_seconds) after = next_interval anchor every_seconds after
  next_occurrence (daily_local timezone hour minute) after = do
    t ← next_local timezone none hour minute after
    ok (some t)
  next_occurrence (weekly_local timezone weekday hour minute) after = do
    t ← next_local timezone (some weekday) hour minute after
    ok (some t)
  next_occurrence (cron expression timezone) after = do
    t ← next_cron expression timezone after
    ok (some t)
