-- ===== src/Storage/Outbox.antt =====
-- crates/homebot-storage/src/lib.rs: the durable event outbox.
-- A method is one step on the tables.
pub mod Lists
pub mod Replay
use home_bot.Common.{
  ◌≡◌, Bool, true, false, not, ◌&&◌, ◌||◌, Option, none, some, List, [], ◌∷◌, ◌++◌, ℕ, zero, suc,
  ◌+◌, ok, err, Result, if◌then◌else◌, ◌==◌, ltb, leb, any, find, filterb, take, is_some_and,
}
use home_bot.Common.Int.{ℤ}
use home_bot.Common.Text.{Text, codes, text_eq}
use home_bot.Storage.Errors.{StorageError, integrity, sql}

-- What the source takes from serde_json.
pub record Json : Type 1 where
  pub Value : Type 0
  pub Object : Type 0
  pub as_object : Value → Option Object
  pub object : Object → Value
  pub contains_key : Object → Text → Bool
  pub insert : Object → Text → Value → Object
  pub from_u64 : ℕ → Value

abbrev pub i64_range : ℕ
i64_range = 9223372036854775807

-- `i64::try_from` of an unsigned number.
abbrev pub fits_i64 : ℕ → Bool
fits_i64 n = leb n i64_range

-- A row of `event_retention_cursors`.
pub record RetentionCursor : Type 0 where
  pub owner_id : ℕ
  pub minimum_resume_sequence : ℕ

-- `limit.clamp(1, 1_000)`.
abbrev pub clamped : ℕ → ℕ
clamped limit = if ltb limit 1 then 1 else if ltb 1000 limit then 1000 else limit

abbrev pub range_error : StorageError
range_error = integrity (codes "outbox cursor exceeds SQLite range")

unfoldable pub minimum_of : List RetentionCursor → ℕ → Option ℕ
minimum_of [] owner_id = none
minimum_of (c ∷ cursors) owner_id =
    let rest = minimum_of cursors owner_id in
    if c.owner_id == owner_id then some c.minimum_resume_sequence else rest

unfoldable pub floor_of : List RetentionCursor → ℕ → ℕ
unfolding minimum_of
floor_of cursors owner_id = elim (minimum_of cursors owner_id) [ none ↦ 0 | some value ↦ value ]

abbrev pub max_of : ℕ → ℕ → ℕ
max_of a b = if ltb a b then b else a

-- The row's `ON CONFLICT(owner_id) DO UPDATE`.
unfoldable pub raise_floor : List RetentionCursor → (owner_id sequence : ℕ) → List RetentionCursor
raise_floor [] owner_id sequence =
    (record { owner_id = owner_id; minimum_resume_sequence = sequence }) ∷ []
raise_floor (c ∷ cursors) owner_id sequence =
    let rest = raise_floor cursors owner_id sequence in
    if c.owner_id == owner_id
    then (record {
      owner_id = owner_id;
      minimum_resume_sequence = max_of c.minimum_resume_sequence sequence;
    })
      ∷ cursors
    else c ∷ rest

module _ (json : Json) where
  pub record OutboxEvent : Type 0 where
    pub sequence : ℕ
    pub event_id : ℕ
    pub owner_id : ℕ
    pub event_kind : Text
    pub payload : json.Value
    pub created_at_ms : ℤ

  pub data ReplayWindow : Type 0 where
    available : List OutboxEvent → ReplayWindow
    unavailable : ReplayWindow

  -- The rows of `event_outbox` in the order in which they were inserted, the last number that
  -- AUTOINCREMENT gave out, and the rows of `event_retention_cursors`.
  pub record Outbox : Type 0 where
    pub events : List OutboxEvent
    pub last : ℕ
    pub cursors : List RetentionCursor

  unfoldable pub stored_payload : json.Value → ℕ → json.Value
  stored_payload payload sequence = elim (json.as_object payload) [
    | none ↦ payload
    | some fields ↦
        if json.contains_key fields (codes "sequence")
        then json.object (json.insert fields (codes "sequence") (json.from_u64 sequence))
        else payload
  ]

  unfoldable pub append_event_with_id :
      Outbox
      → (event_id owner_id : ℕ) → Text
      → json.Value
      → ℤ
      → Outbox × Result StorageError (Option OutboxEvent)
  unfolding stored_payload
  append_event_with_id s event_id owner_id event_kind payload created_at_ms =
      let sequence = suc s.last in
      let event : OutboxEvent = record {
        sequence = sequence;
        event_id = event_id;
        owner_id = owner_id;
        event_kind = event_kind;
        payload = stored_payload payload sequence;
        created_at_ms = created_at_ms;
      } in
      if any (λ e. e.event_id == event_id) s.events
      then (s, ok none)
      else if leb i64_range s.last
      then (s, err sql)
      else (
        record { events = s.events ++ event ∷ []; last = sequence; cursors = s.cursors },
        ok (some event),
      )

  -- `append_event` with the identifier that it draws.
  unfoldable pub append_event :
      Outbox
      → (fresh_id owner_id : ℕ) → Text
      → json.Value
      → ℤ
      → Outbox × Result StorageError OutboxEvent
  unfolding append_event_with_id
  append_event s fresh_id owner_id event_kind payload created_at_ms =
      let (s', appended) =
        append_event_with_id s fresh_id owner_id event_kind payload created_at_ms in
      (
        s',
        elim appended [
          | err e ↦ err e
          | ok none ↦ err (integrity (codes "fresh outbox event ID collided"))
          | ok (some event) ↦ ok event
        ],
      )

  -- `ORDER BY sequence ASC`.
  unfoldable pub insert_event : OutboxEvent → List OutboxEvent → List OutboxEvent
  insert_event e [] = e ∷ []
  insert_event e (f ∷ events) =
      let rest = insert_event e events in
      if leb e.sequence f.sequence then e ∷ f ∷ events else f ∷ rest

  unfoldable pub by_sequence : List OutboxEvent → List OutboxEvent
  unfolding insert_event
  by_sequence [] = []
  by_sequence (e ∷ events) = insert_event e (by_sequence events)

  -- `WHERE owner_id = ? AND sequence > ?`.
  abbrev pub is_after : (owner_id sequence : ℕ) → OutboxEvent → Bool
  is_after owner_id sequence e = (e.owner_id == owner_id) && ltb sequence e.sequence

  unfoldable pub events_after :
      Outbox → (owner_id sequence limit : ℕ) → Result StorageError (List OutboxEvent)
  unfolding by_sequence
  events_after s owner_id sequence limit =
      if not (fits_i64 sequence)
      then err range_error
      else ok (take (clamped limit) (by_sequence (filterb (is_after owner_id sequence) s.events)))

  unfoldable pub latest_in : ℕ → List OutboxEvent → ℕ
  latest_in owner_id [] = 0
  latest_in owner_id (e ∷ events) =
      let rest = latest_in owner_id events in
      if (e.owner_id == owner_id) && ltb rest e.sequence then e.sequence else rest

  unfoldable pub latest_sequence : Outbox → ℕ → ℕ
  unfolding latest_in
  latest_sequence s owner_id = latest_in owner_id s.events

  unfoldable pub replay_after :
      Outbox → (owner_id sequence limit : ℕ) → Result StorageError ReplayWindow
  unfolding events_after latest_sequence floor_of
  replay_after s owner_id sequence limit =
      let minimum = minimum_of s.cursors owner_id in
      let latest = max_of (latest_sequence s owner_id) (floor_of s.cursors owner_id) in
      if not (fits_i64 sequence)
      then err range_error
      else if is_some_and minimum (λ floor. ltb sequence floor) || ltb latest sequence
      then ok unavailable
      else elim (events_after s owner_id sequence limit) [
        | err e ↦ err e
        | ok events ↦ ok (available events)
      ]

  -- `NOT (owner_id = ? AND sequence <= ?)`.
  abbrev pub is_kept : (owner_id sequence : ℕ) → OutboxEvent → Bool
  is_kept owner_id sequence e = not ((e.owner_id == owner_id) && leb e.sequence sequence)

  unfoldable pub prune_events_through :
      Outbox → (owner_id sequence : ℕ) → Outbox × Result StorageError (Unit {0})
  unfolding raise_floor
  prune_events_through s owner_id sequence =
      if not (fits_i64 sequence) then (s, err range_error) else (
        record {
          events = filterb (is_kept owner_id sequence) s.events;
          last = s.last;
          cursors = raise_floor s.cursors owner_id sequence;
        },
        ok tt,
      )
