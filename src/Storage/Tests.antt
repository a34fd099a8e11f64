-- ===== src/Storage/Tests.antt =====
-- Runs of the storage at concrete inputs, and the witnesses of its theorems.
use home_bot.Common.{
  true, ◌≡◌, refl, false, none, some, List, [], ◌∷◌, ℕ, ◌≤◌, ok, count, is_some_and, ◌==◌,
}
use home_bot.Common.Int.{pos}
use home_bot.Common.Text.{codes, trim, is_whitespace, text_eq}
use home_bot.Routines.Schedule.Defs.{run_once}
use home_bot.Storage.Outbox.{
  Json, replay_after, floor_of, latest_sequence, max_of, append_event_with_id, prune_events_through,
}
use home_bot.Storage.Idempotency.{claim_idempotency, replayed}
use home_bot.Storage.Outbox.Lists.{IsAscending}
use home_bot.Storage.Pairing.{
  DeviceSession, Exchange, exchange_pairing_credential, create_pairing_credential, Database,
}
use home_bot.Storage.Pairing.Sessions.{
  revoke_device_session, device_session_is_active, authenticate_device_session,
}
use home_bot.Storage.Pairing.Steps.{Step, create, exchange, no_rows}
use home_bot.Storage.Pairing.Once.{exchange-once}
use home_bot.Storage.Pairing.Revoked.{revoke_device_session-ends}
use home_bot.Storage.Pairing.Gone.{is_device}
use home_bot.Storage.Jobs.{enqueue_routine_job, RoutineTrigger, RetryPolicy, webhook, skip}
use home_bot.Storage.Jobs.Claim.{claim_next_routine_job, is_active}
use home_bot.Storage.Jobs.Change.{delivered_job}
use home_bot.Storage.Jobs.Steps.{run, deliver, claim, largest}
use home_bot.Storage.Jobs.Running.{running-capacity}
use home_bot.Storage.Outbox.Replay
use home_bot.Storage.Idempotency.Claims
use home_bot.Storage.Pairing.Steps

-- Payloads that are numbers, of which none is an object.
abbrev numbers : Json
numbers = record {
  Value = ℕ;
  Object = ℕ;
  as_object = λ v. none;
  object = λ v. v;
  contains_key = λ o key. false;
  insert = λ o key v. o;
  from_u64 = λ n. n;
}

-- Three events of owner 1, the first of them pruned.
abbrev three_events : List (Replay.Step numbers)
three_events =
    Replay.append 13 1 (codes "c") 30 (pos 3)
    ∷ Replay.prune 1 1
    ∷ Replay.append 12 1 (codes "b") 20 (pos 2)
    ∷ Replay.append 11 1 (codes "a") 10 (pos 1)
    ∷ []

replay_after_runs :
    Replay.returned numbers (replay_after numbers (Replay.run numbers three_events).0 1 2 10)
    ≡ record {
      sequence = 3;
      event_id = 13;
      owner_id = 1;
      event_kind = codes "c";
      payload = 30;
      created_at_ms = pos 3;
    }
      ∷ []
unfolding replay_after Replay.run append_event_with_id prune_events_through
replay_after_runs = refl

replay_after-log_example :
    let (s, log) = Replay.run numbers three_events in
    let floor = floor_of s.cursors 1 in
    let latest = max_of (latest_sequence numbers s 1) floor in
    let replayed = replay_after numbers s 1 2 10 in
    (replayed ≡ Replay.replay_of numbers log floor latest 1 2 10)
    × IsAscending numbers 2 (Replay.returned numbers replayed)
replay_after-log_example = Replay.replay_after-log numbers three_events 1 2 10

abbrev phone : Exchange
phone = record {
  owner_id = 1;
  token_digest = 7;
  native_proof_digest = some 8;
  request_origin = none;
  source_digest = 9;
  device_id = 20;
  device_name = codes " Phone ";
  session_digest = 70;
  now_ms = pos 100;
  rate_window_ms = pos 60000;
}

abbrev exchanged_twice : List Step
exchanged_twice =
    exchange record phone { device_id = 21; session_digest = 71 }
    ∷ exchange phone
    ∷ create 1 2 7 8 (codes "http://10.0.0.1") (codes "http://10.0.0.1") (codes "lan") (pos 0)
        (pos 1000)
    ∷ []

exchanged_once : Steps.log exchanged_twice no_rows ≡ phone ∷ []
unfolding Steps.log Steps.run exchange_pairing_credential create_pairing_credential trim
    is_whitespace text_eq
exchanged_once = refl

exchange-once_example : count (λ x. x.token_digest == 7) (Steps.log exchanged_twice no_rows) ≤ 1
exchange-once_example = exchange-once exchanged_twice 7

abbrev phone_session : DeviceSession
phone_session = record {
  id = 20;
  owner_id = 1;
  name = codes "Phone";
  token_digest = 70;
  endpoint_kind = codes "lan";
  created_at_ms = pos 100;
  last_seen_at_ms = none;
  revoked_at_ms = none;
}

abbrev one_session : Database
one_session = record no_rows { sessions = phone_session ∷ [] }

phone_revoked :
    (revoke_device_session one_session 1 20 (pos 200)).1
    ≡ ok (record phone_session { revoked_at_ms = some (pos 200) })
unfolding revoke_device_session
phone_revoked = refl

revoke_device_session-ends_example :
    let db' = Steps.run exchanged_twice (revoke_device_session one_session 1 20 (pos 200)).0 in
    (device_session_is_active db' 1 20 ≡ false)
    × (is_some_and (authenticate_device_session db' 70 (pos 300)).1 (is_device 1 20) ≡ false)
revoke_device_session-ends_example =
    revoke_device_session-ends one_session 1 20 (pos 200)
      (record phone_session { revoked_at_ms = some (pos 200) }) phone_revoked exchanged_twice 70
      (pos 300)

abbrev thrice : RetryPolicy
thrice = record { maximum_attempts = 3; initial_backoff_seconds = 5; maximum_backoff_seconds = 300 }

abbrev hook : RoutineTrigger
hook = record {
  id = 4;
  owner_id = 1;
  routine_id = 5;
  enabled = true;
  last_evaluated_at_ms = none;
  next_fire_at_ms = none;
  last_event_sequence = 0;
  created_at_ms = pos 0;
  updated_at_ms = pos 0;
  definition = record {
    source = webhook (codes "hook");
    missed_run_policy = run_once;
    overlap_policy = skip;
    retry_policy = thrice;
    catch_up_limit = 1;
  };
}

-- Two deliveries, and two claims.
abbrev two_claims : List home_bot.Storage.Jobs.Steps.Step
two_claims =
    claim 1 (pos 20)
    ∷ claim 1 (pos 20)
    ∷ deliver 4 31 1 6 (codes "b") (codes "{}") (codes "{}") (pos 10) (pos 10)
    ∷ deliver 4 30 1 6 (codes "a") (codes "{}") (codes "{}") (pos 10) (pos 10)
    ∷ []

one_runs : count (is_active 1 5) (run (hook ∷ []) two_claims).jobs ≡ 1
unfolding run claim_next_routine_job enqueue_routine_job delivered_job text_eq
one_runs = refl

running-capacity_example : count (is_active 1 5) (run (hook ∷ []) two_claims).jobs ≤ 1
running-capacity_example = running-capacity (hook ∷ []) two_claims 1 5

-- Key 4 is claimed and key 5 released between the two claims of key 3.
abbrev others : List Claims.Step
others = Claims.release 5 ∷ Claims.claim 4 (codes "other") 41 (pos 2) ∷ []

claim_idempotency-replayed_example :
    let records = Claims.run others (claim_idempotency [] 3 (codes "hash") 40 (pos 1)).0 in
    claim_idempotency records 3 (codes "hash") 42 (pos 3) ≡ (records, replayed 40)
unfolding text_eq
claim_idempotency-replayed_example =
    Claims.claim_idempotency-replayed [] 3 (codes "hash") 40 (pos 1) others refl (codes "hash") 42
      (pos 3)
