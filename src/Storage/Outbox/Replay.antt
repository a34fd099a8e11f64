-- ===== src/Storage/Outbox/Replay.antt =====
-- What `replay_after` (crates/homebot-storage/src/lib.rs) returns, over the events that were ever
-- appended.
use home_bot.Common.{
  ◌≡◌, refl, sym, ◌∙◌, true, not, ◌||◌, Option, none, some, List, [], ◌∷◌, ◌++◌, ℕ, suc, ◌≤◌, arith,
  Bool-cases, Option-cases, inl, inr, leb, ltb, ◌==◌, if◌then◌else◌, filterb, take, All, All-append,
  All-filterb, Result, ok, err, any, is_some_and,
}
use home_bot.Common.Int.{ℤ}
use mathlib.Core.List.{append-nil}
use mathlib.Core.Path.{subst}
use home_bot.Common.Text.{Text}
use home_bot.Storage.Errors.{StorageError}
use home_bot.Storage.Outbox.{
  Json, Outbox, OutboxEvent, ReplayWindow, RetentionCursor, available, unavailable,
  append_event_with_id, prune_events_through, replay_after, events_after, floor_of, minimum_of,
  raise_floor, latest_sequence, is_after, is_kept, clamped, fits_i64, range_error, by_sequence,
  i64_range, max_of,
}
use home_bot.Storage.Outbox.Lists.{
  IsAscending, take-IsAscending, after-IsAscending, filterb-IsAscending, append-IsAscending,
  by_sequence-IsAscending, filterb-same, filterb_implied,
}

-- Raising one owner's floor lowers none, and brings that owner's to the sequence.
raise_floor-floor_of :
    (cursors : List RetentionCursor) (owner_id sequence other : ℕ)
    → (floor_of cursors other ≤ floor_of (raise_floor cursors owner_id sequence) other)
      × ((other == owner_id) ≡ true
          → sequence ≤ floor_of (raise_floor cursors owner_id sequence) other)
unfolding floor_of minimum_of raise_floor
raise_floor-floor_of [] owner_id sequence other = ground arith
raise_floor-floor_of (c ∷ cursors) owner_id sequence other =
    ground (arith, raise_floor-floor_of cursors owner_id sequence other)

module _ (json : Json) where
  -- A call that changes the outbox.
  pub data Step : Type 0 where
    append : (event_id owner_id : ℕ) → Text → json.Value → ℤ → Step
    prune : (owner_id sequence : ℕ) → Step

  abbrev appended : Result StorageError (Option (OutboxEvent json)) → List (OutboxEvent json)
  appended (err e) = []
  appended (ok none) = []
  appended (ok (some event)) = event ∷ []

  -- The outbox after some calls, the last call first, beside the log of all events that they appended.
  unfoldable pub run : List Step → Outbox json × List (OutboxEvent json)
  run [] = (record { events = []; last = 0; cursors = [] }, [])
  run (append event_id owner_id event_kind payload created_at_ms ∷ steps) =
      let (s, log) = run steps in
      let (s', result) =
        append_event_with_id json s event_id owner_id event_kind payload created_at_ms in
      (s', log ++ appended result)
  run (prune owner_id sequence ∷ steps) =
      let (s, log) = run steps in ((prune_events_through json s owner_id sequence).0, log)

  -- Behind the floor of an owner, the table has what the log has.
  abbrev IsComplete : Outbox json → List (OutboxEvent json) → Type 0
  IsComplete s log =
      (owner_id sequence : ℕ)
      → floor_of s.cursors owner_id ≤ sequence
      → filterb (is_after json owner_id sequence) s.events
        ≡ filterb (is_after json owner_id sequence) log

  abbrev IsOrdered : Outbox json → Type 0
  IsOrdered s = IsAscending json 0 s.events × All (λ e. e.sequence ≤ s.last) s.events

  abbrev Invariant : Outbox json × List (OutboxEvent json) → Type 0
  Invariant (s, log) = IsOrdered s × IsComplete s log

  All_widen :
      (m n : ℕ) (events : List (OutboxEvent json))
      → m ≤ n
      → All (λ e. e.sequence ≤ m) events
      → All (λ e. e.sequence ≤ n) events
  All_widen m n [] h bounded = tt
  All_widen m n (e ∷ events) h (below, rest) = (omega arith, All_widen m n events h rest)

  append-Invariant :
      (s : Outbox json) (log : List (OutboxEvent json)) (event_id owner_id : ℕ) (event_kind : Text)
      (payload : json.Value) (created_at_ms : ℤ)
      → Invariant (s, log)
      → let (s', result) =
          append_event_with_id json s event_id owner_id event_kind payload created_at_ms in
        Invariant (s', log ++ appended result)
  unfolding append_event_with_id
  append-Invariant s log event_id owner_id event_kind payload created_at_ms
        ((ascending, bounded), complete) =
      elim (Bool-cases (any (λ e. e.event_id == event_id) s.events)) [
        | inl known ↦ rw (known, append-nil log) ((ascending, bounded), complete)
        | inr fresh ↦ elim (Bool-cases (leb i64_range s.last)) [
          | inl full ↦ rw (fresh, full, append-nil log) ((ascending, bounded), complete)
          | inr room ↦
              rw (fresh, room)
                (
                  (
                    append-IsAscending json 0 s.last s.events _ ascending bounded (ground arith)
                        (ground arith),
                    All-append _ s.events _
                        (All_widen s.last (suc s.last) s.events (omega arith) bounded)
                        (omega arith, tt),
                  ),
                  λ other after h.
                      filterb-same (is_after json other after) s.events log _
                        (complete other after h),
                )
        ]
      ]

  still_kept :
      (cursors : List RetentionCursor) (owner_id sequence other after : ℕ)
      → floor_of (raise_floor cursors owner_id sequence) other ≤ after
      → (e : OutboxEvent json) → is_after json other after e ≡ true
      → is_kept json owner_id sequence e ≡ true
  still_kept cursors owner_id sequence other after h e hit = elim (Bool-cases (other == owner_id)) [
    | inl same ↦
        let floor : sequence ≤ after =
          omega (arith, (raise_floor-floor_of cursors owner_id sequence other).1 same, h) in
        ground arith
    | inr differ ↦ ground arith
  ]

  prune-Invariant :
      (s : Outbox json) (log : List (OutboxEvent json)) (owner_id sequence : ℕ)
      → Invariant (s, log)
      → Invariant ((prune_events_through json s owner_id sequence).0, log)
  unfolding prune_events_through
  prune-Invariant s log owner_id sequence ((ascending, bounded), complete) =
      elim (Bool-cases (fits_i64 sequence)) [
        | inl fits ↦ rw fits (
          (
            filterb-IsAscending json (is_kept json owner_id sequence) 0 s.events ascending,
            All-filterb _ (is_kept json owner_id sequence) s.events bounded,
          ),
          λ other after h.
              filterb_implied (is_after json other after) (is_kept json owner_id sequence) s.events
                (still_kept s.cursors owner_id sequence other after h)
              ∙ complete other after
                  (omega (arith, (raise_floor-floor_of s.cursors owner_id sequence other).0, h)),
        )
        | inr beyond ↦ rw beyond ((ascending, bounded), complete)
      ]

  run-Invariant : (steps : List Step) → Invariant (run steps)
  unfolding run
  run-Invariant [] = ((tt, tt), λ owner_id sequence h. refl)
  run-Invariant (append event_id owner_id event_kind payload created_at_ms ∷ steps) =
      append-Invariant (run steps).0 (run steps).1 event_id owner_id event_kind payload
        created_at_ms (run-Invariant steps)
  run-Invariant (prune owner_id sequence ∷ steps) =
      prune-Invariant (run steps).0 (run steps).1 owner_id sequence (run-Invariant steps)

  -- What `replay_after` promises, of the cursor and the log alone but for where the stream ends.
  abbrev pub replay_of :
      (log : List (OutboxEvent json)) (floor latest owner_id sequence limit : ℕ)
      → Result StorageError (ReplayWindow json)
  replay_of log floor latest owner_id sequence limit =
      if not (fits_i64 sequence)
      then err range_error
      else if ltb sequence floor || ltb latest sequence
      then ok unavailable
      else ok (available (take (clamped limit) (filterb (is_after json owner_id sequence) log)))

  minimum-floor_of :
      (cursors : List RetentionCursor) (owner_id sequence : ℕ)
      → is_some_and (minimum_of cursors owner_id) (λ floor. ltb sequence floor)
        ≡ ltb sequence (floor_of cursors owner_id)
  unfolding floor_of
  minimum-floor_of cursors owner_id sequence = elim (Option-cases (minimum_of cursors owner_id)) [
    | inl absent ↦ rw (floor_of, absent) (ground arith)
    | inr (floor, found) ↦ rw (floor_of, found)
  ]

  window :
      (s : Outbox json) (log : List (OutboxEvent json)) (owner_id sequence : ℕ)
      → Invariant (s, log)
      → floor_of s.cursors owner_id ≤ sequence
      → by_sequence json (filterb (is_after json owner_id sequence) s.events)
        ≡ filterb (is_after json owner_id sequence) log
  window s log owner_id sequence ((ascending, bounded), complete) h =
      by_sequence-IsAscending json sequence _
        (after-IsAscending json owner_id sequence 0 s.events ascending)
      ∙ complete owner_id sequence h

  log-IsAscending :
      (s : Outbox json) (log : List (OutboxEvent json)) (owner_id sequence : ℕ)
      → Invariant (s, log)
      → floor_of s.cursors owner_id ≤ sequence
      → IsAscending json sequence (filterb (is_after json owner_id sequence) log)
  log-IsAscending s log owner_id sequence ((ascending, bounded), complete) h =
      subst (IsAscending json sequence) (complete owner_id sequence h)
        (after-IsAscending json owner_id sequence 0 s.events ascending)

  replay-Invariant :
      (s : Outbox json) (log : List (OutboxEvent json)) (owner_id sequence limit : ℕ)
      → Invariant (s, log)
      → replay_after json s owner_id sequence limit
        ≡ replay_of log
            (floor_of s.cursors owner_id)
            (max_of (latest_sequence json s owner_id) (floor_of s.cursors owner_id))
            owner_id
            sequence
            limit
  unfolding replay_after events_after
  replay-Invariant s log owner_id sequence limit invariant = elim (Bool-cases (fits_i64 sequence)) [
    | inr beyond ↦ rw (replay_after, beyond)
    | inl fits ↦
        let floor = floor_of s.cursors owner_id in
        let latest = max_of (latest_sequence json s owner_id) floor in
        elim (Bool-cases (ltb sequence floor || ltb latest sequence)) [
          | inl gap ↦ rw (replay_after, fits, minimum-floor_of s.cursors owner_id sequence, gap)
          | inr within ↦ rw (
            replay_after,
            events_after,
            fits,
            minimum-floor_of s.cursors owner_id sequence,
            within,
            window s log owner_id sequence invariant (ground arith),
          )
        ]
  ]

  abbrev pub returned : Result StorageError (ReplayWindow json) → List (OutboxEvent json)
  returned (err e) = []
  returned (ok unavailable) = []
  returned (ok (available events)) = events

  replay_of-IsAscending :
      (s : Outbox json) (log : List (OutboxEvent json)) (latest owner_id sequence limit : ℕ)
      → Invariant (s, log)
      → IsAscending json sequence
          (returned (replay_of log (floor_of s.cursors owner_id) latest owner_id sequence limit))
  replay_of-IsAscending s log latest owner_id sequence limit invariant =
      elim (Bool-cases (fits_i64 sequence)) [
        | inr beyond ↦ rw beyond tt
        | inl fits ↦
            elim (Bool-cases (ltb sequence (floor_of s.cursors owner_id) || ltb latest sequence)) [
              | inl gap ↦ rw (fits, gap) tt
              | inr within ↦
                  rw (fits, within)
                    (take-IsAscending json (clamped limit) sequence _
                      (log-IsAscending s log owner_id sequence invariant (ground arith)))
            ]
      ]

-- After any calls that append events to an empty outbox or prune it, and for any cursor:
-- `replay_after` refuses a cursor beyond `i64`, reports a window that is not available where the
-- cursor is below the owner's floor or beyond both the floor and the owner's latest event, and else
-- returns, of all events that were ever appended for the owner, those after the cursor without a gap,
-- up to the clamped limit. The sequences returned ascend strictly from above the cursor.
pub replay_after-log :
    (json : Json) (steps : List (Step json)) (owner_id sequence limit : ℕ)
    → let (s, log) = run json steps in
      let floor = floor_of s.cursors owner_id in
      let latest = max_of (latest_sequence json s owner_id) floor in
      let replayed = replay_after json s owner_id sequence limit in
      (replayed ≡ replay_of json log floor latest owner_id sequence limit)
      × IsAscending json sequence (returned json replayed)
replay_after-log json steps owner_id sequence limit =
    let (s, log) = run json steps in
    let same = replay-Invariant json s log owner_id sequence limit (run-Invariant json steps) in
    (
      same,
      subst (λ r. IsAscending json sequence (returned json r)) (sym same)
          (replay_of-IsAscending json s log _ owner_id sequence limit (run-Invariant json steps)),
    )
