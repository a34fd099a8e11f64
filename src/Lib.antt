-- ===== src/Lib.antt =====
-- HomeBot: a server that runs AI teammates ("bots"). A bot chats through a provider (Codex, Claude, a
-- local process), uses tools under a policy, and runs routines on a schedule. This library models the
-- Rust crates that decide: what a bot and a message may be, which adapter owns an operation, which
-- request is let through, which secret a tool may use, when a routine is due and what it does, and
-- what the database keeps of events, paired devices and the queue of routine jobs.
--
-- Files, by crate:
--   Domain: crates/homebot-domain. Bot and Strings model src/lib.rs (Bot::create, update_identity,
--     archive, restore, validate_text and the enums of string_enum!), Chat and Conversation model
--     src/chat.rs (the enums with as_str and from_str; ChatMessage::user); Identity, Message and Naming
--     prove.
--   Tools: crates/homebot-tools. Contracts models src/contracts.rs, Policy src/policy.rs: Rules has
--     PolicyRule::matches and PolicyEngine::effect, Engine has the state and decide, Authorize has
--     authorize and consume_approval. Effect, Approvals, Sound, Pending and Race prove; Reachable has
--     the states that calls reach.
--   Routines: crates/homebot-routines. Schedule models src/schedule.rs: Defs has next_occurrence and
--     Due has due_occurrences; Interval, Local, Scan, Window and Backlog prove. Replay.Defs
--     and Replay.Steps model src/lib.rs (validate, definition_from_recording and validate_inputs;
--     replay); Run, Boundary, Inputs and Recording prove.
--   Providers: crates/homebot-providers. Contracts models src/contracts.rs, Runtime.Defs and
--     Runtime.Recover model src/runtime.rs; Routing, Cancel and Overlap prove; an adapter's
--     method takes the moment of the call, since it may answer differently at another one.
--     Supervisor models src/supervisor.rs: Line has read_bounded_line, Diagnostics has
--     read_bounded_stderr and retain_diagnostic, Spawn has spawn_child, Process has
--     ProcessSpec and SupervisedProcess; Frames, Framing, Retained, Complete and
--     Report prove.
--   Storage: crates/homebot-storage, src/lib.rs with the tables of migrations. Outbox has append_event,
--     replay_after and prune_events_through, Outbox.Replay runs them and proves. Pairing has the
--     credentials and exchange_pairing_credential, Pairing.Sessions the device sessions, Pairing.Steps
--     their runs; Counts, Once, Gone and Revoked prove. Jobs has enqueue_routine_job, Jobs.Claim has
--     claim_next_routine_job, Jobs.Change has the ends, retries, cancellations and the recovery of
--     jobs (and the record that enqueue_delivery of crates/homebot-server/src/scheduler.rs makes),
--     Jobs.Steps their runs;
--     Within, Selected, Overlap, Running and Backoff prove. Idempotency has claim_idempotency and
--     release_idempotency, Idempotency.Claims proves.
--   Secrets: crates/homebot-secrets. Vault models src/lib.rs (SecretVault, MemorySecretVault), and Use
--     models resolve_for_tool of crates/homebot-tools/src/secret.rs over the policy; Memory proves.
--   Common: numbers, texts, results and hash maps as the crates use them.
--
-- State is passed explicitly: a method takes the state and returns it with its result. A text is the
-- list of its code points; a Uuid, a digest and an unsigned integer are natural numbers, a timestamp an
-- integer, with the checked, saturating and wrapping operations of the source written out. A clock that
-- is read and an identifier that is drawn are arguments. A hash map is an association list in the order
-- of its iteration. `serde_json::Value` is a type parameter.
--
-- A table is the list of its rows. A method of the storage is one step, and a rollback restores the
-- tables; authenticate_device_session, revoke_device_session, retry_or_fail_routine_job and
-- replay_after have several statements without a transaction, between which other calls are not
-- modelled. A WHERE is a filter, an UPDATE a map over the rows, an ORDER BY an insertion sort, and a
-- constraint that a statement breaks is an error of the database. A sequence of calls of the storage
-- is a list with the last call first, one of the provider runtime has the first call first.
--
-- Loops are structural recursion over a list, or over the source's own bounds: 10,000 occurrences in
-- due_occurrences and 3,671 days in next_local, behind which the source gives up with ScanLimit, so no
-- fuel is needed. The loop of read_bounded_line is recursion over the chunks that the reader has left,
-- that of spawn_child over its eight attempts.
--
-- Parameters: chrono, chrono-tz and croner (the record Calendar), the SHA-256 digest of a request,
-- serde_json values and uuid parsing (the record Json of the routines), and the implementations
-- of the traits ProviderAdapter, RoutineActionExecutor and SecretVault, the text of a Uuid, and what each
-- attempt of Command::spawn and the calls of a child give.
--
-- Not modelled: the events of a provider's run and HTTP, the other tables of the storage, its
-- migrations and backups, the failures of SQLite other than constraints, the server's handlers, and
-- the clients; most are input and output around the parts above.
mod Common
pub mod Domain
pub mod Storage
pub mod Tools
pub mod Routines
pub mod Providers
pub mod Secrets
