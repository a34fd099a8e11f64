-- ===== src/Providers/Supervisor/Process.antt =====
-- crates/homebot-providers/src/supervisor.rs: what a process is started with, and how it ends. The
-- child of tokio is a parameter, by what its calls give; durations are in milliseconds.
use home_bot.Common.{
  Bool, true, false, ◌&&◌, Option, none, some, List, [], ◌∷◌, ◌++◌, ℕ, ◌-◌, Result, ok, err,
  if◌then◌else◌, ltb, ◌==◌,
}
use home_bot.Common.Int.{ℤ, pos, negsuc}
use home_bot.Common.Text.{Text, codes}
use home_bot.Common.HashMap.{HashMap, insert, text_keys}
use home_bot.Providers.Supervisor.Line.{Reader}
use home_bot.Providers.Supervisor.Spawn.{ErrorKind, SpawnError, spawn_child}
use home_bot.Providers.Supervisor.Diagnostics.{
  read_bounded_stderr, BoundedDiagnostics, no_diagnostics,
}

pub record ProcessLimits : Type 0 where
  pub max_stderr_bytes : ℕ
  pub shutdown_grace : ℕ

abbrev pub default_limits : ProcessLimits
default_limits = record { max_stderr_bytes = 65536; shutdown_grace = 3000 }

pub record ProcessSpec : Type 0 where
  pub program : Text
  pub args : List Text
  pub current_dir : Option Text
  pub environment : HashMap Text Text
  pub secret_values : List Text
  pub limits : ProcessLimits

unfoldable pub new_spec : Text → ProcessSpec
new_spec program = record {
  program = program;
  args = [];
  current_dir = none;
  environment = [];
  secret_values = [];
  limits = default_limits;
}

unfoldable pub arg : ProcessSpec → Text → ProcessSpec
arg spec argument = record spec { args = spec.args ++ argument ∷ [] }

unfoldable pub in_dir : ProcessSpec → Text → ProcessSpec
in_dir spec directory = record spec { current_dir = some directory }

-- The map is a `BTreeMap`; its order is not modelled.
unfoldable pub environment : ProcessSpec → (key value : Text) → ProcessSpec
unfolding insert
environment spec key value = record spec { environment = insert key value spec.environment }

unfoldable pub redact_value : ProcessSpec → Text → ProcessSpec
redact_value spec [] = spec
redact_value spec (c ∷ value) = record spec {
  secret_values = spec.secret_values ++ (c ∷ value) ∷ [];
}

unfoldable pub with_limits : ProcessSpec → ProcessLimits → ProcessSpec
with_limits spec limits = record spec { limits = limits }

pub data ProcessTermination : Type 0 where
  exited crashed clean_shutdown killed_after_grace : ProcessTermination

pub record ProcessReport : Type 0 where
  pub diagnostic_id : ℕ
  pub termination : ProcessTermination
  pub exit_code : Option ℤ
  pub runtime_ms : ℕ
  pub stderr_tail : List Text
  pub stderr_truncated : Bool

abbrev ends_well : ProcessTermination → Bool
ends_well exited = true
ends_well crashed = false
ends_well clean_shutdown = true
ends_well killed_after_grace = false

abbrev is_zero_code : Option ℤ → Bool
is_zero_code none = false
is_zero_code (some (pos n)) = n == 0
is_zero_code (some (negsuc n)) = false

unfoldable pub succeeded : ProcessReport → Bool
succeeded r = ends_well r.termination && is_zero_code r.exit_code

-- What the child's calls give: its exit, its exit before a time is over, and its exit once it was
-- killed. An error is a number.
pub record ExitStatus : Type 0 where
  pub success : Bool
  pub code : Option ℤ

pub record Child : Type 0 where
  pub wait : Result ℕ ExitStatus
  pub wait_within : (grace : ℕ) → Option (Result ℕ ExitStatus)
  pub start_kill : Result ℕ (Unit {0})
  pub wait_killed : Result ℕ ExitStatus

pub data ProcessError : Type 0 where
  not_spawned : SpawnError → ProcessError
  missing_pipe already_finished : ProcessError
  io diagnostic_task : ℕ → ProcessError

-- A process under supervision: the child, whether its pipes are still held, and what the task that
-- reads its standard error gives.
pub record SupervisedProcess : Type 0 where
  pub child : Option Child
  pub stdin : Bool
  pub stdout : Bool
  pub stderr : Option (Result ℕ BoundedDiagnostics)
  pub limits : ProcessLimits
  pub started : ℕ

-- What `Command::spawn` gives: the child with its pipes.
pub record Spawned : Type 0 where
  pub child : Child
  pub stdin : Bool
  pub stdout : Bool
  pub stderr : Option Reader

-- `SupervisedProcess::spawn`, with the program's file name, what each attempt to spawn gives, and the
-- clock. The task that reads the standard error is run to its end. `none` is the `unreachable!` of
-- `spawn_child`.
unfoldable pub supervise :
    ProcessSpec
    → (file_name : Option Text) → (spawn : ℕ → Result ErrorKind Spawned) → (now : ℕ)
    → Option (Result ProcessError SupervisedProcess)
unfolding spawn_child read_bounded_stderr
supervise spec file_name spawn now =
    let program : Text = elim file_name [ none ↦ codes "provider" | some name ↦ name ] in
    let max_bytes = spec.limits.max_stderr_bytes in
    let stderr_limit = if ltb max_bytes 1 then 1 else max_bytes in
    elim (spawn_child spawn program) [
      | none ↦ none
      | some (err e) ↦ some (err (not_spawned e))
      | some (ok spawned) ↦ some (elim spawned.stderr [
        | none ↦ err missing_pipe
        | some reader ↦ ok (record {
          child = some spawned.child;
          stdin = spawned.stdin;
          stdout = spawned.stdout;
          stderr = some (ok (read_bounded_stderr reader stderr_limit spec.secret_values));
          limits = spec.limits;
          started = now;
        })
      ])
    ]

unfoldable pub take_stdin : SupervisedProcess → SupervisedProcess × Bool
take_stdin p = (record p { stdin = false }, p.stdin)

unfoldable pub take_stdout : SupervisedProcess → SupervisedProcess × Bool
take_stdout p = (record p { stdout = false }, p.stdout)

abbrev u64_max : ℕ
u64_max = 18446744073709551615

-- `report`, with the identifier that it draws and the clock.
unfoldable pub report :
    SupervisedProcess
    → ProcessTermination
    → Option ℤ
    → (diagnostic_id now : ℕ) → SupervisedProcess × Result ProcessError ProcessReport
report p termination exit_code diagnostic_id now =
    let elapsed = now - p.started in
    let made : BoundedDiagnostics → ProcessReport = λ diagnostics. record {
      diagnostic_id = diagnostic_id;
      termination = termination;
      exit_code = exit_code;
      runtime_ms = if ltb u64_max elapsed then u64_max else elapsed;
      stderr_tail = diagnostics.lines;
      stderr_truncated = diagnostics.truncated;
    } in
    (
      record p { stderr = none },
      elim p.stderr [
        | none ↦ ok (made no_diagnostics)
        | some (err e) ↦ err (diagnostic_task e)
        | some (ok diagnostics) ↦ ok (made diagnostics)
      ],
    )

-- The child is taken once its status is known.
unfoldable pub reaped :
    SupervisedProcess
    → Result ℕ ExitStatus
    → (ExitStatus → ProcessTermination)
    → (diagnostic_id now : ℕ) → SupervisedProcess × Result ProcessError ProcessReport
unfolding report
reaped p (err e) termination diagnostic_id now = (p, err (io e))
reaped p (ok status) termination diagnostic_id now =
    report (record p { child = none }) (termination status) status.code diagnostic_id now

unfoldable pub wait :
    SupervisedProcess
    → (diagnostic_id now : ℕ) → SupervisedProcess × Result ProcessError ProcessReport
unfolding reaped
wait p diagnostic_id now =
    let closed = record p { stdin = false } in
    elim p.child [
      | none ↦ (closed, err already_finished)
      | some child ↦
          reaped closed child.wait (λ status. if status.success then exited else crashed)
            diagnostic_id now
    ]

unfoldable pub kill_and_reap :
    SupervisedProcess
    → Child
    → (diagnostic_id now : ℕ) → SupervisedProcess × Result ProcessError ProcessReport
unfolding reaped
kill_and_reap p child diagnostic_id now = elim child.start_kill [
  | err e ↦ (p, err (io e))
  | ok _ ↦ reaped p child.wait_killed (λ status. killed_after_grace) diagnostic_id now
]

unfoldable pub shutdown :
    SupervisedProcess
    → (diagnostic_id now : ℕ) → SupervisedProcess × Result ProcessError ProcessReport
unfolding kill_and_reap
shutdown p diagnostic_id now =
    let closed = record p { stdin = false } in
    elim p.child [
      | none ↦ (closed, err already_finished)
      | some child ↦ elim (child.wait_within p.limits.shutdown_grace) [
        | some status ↦ reaped closed status (λ s. clean_shutdown) diagnostic_id now
        | none ↦ kill_and_reap closed child diagnostic_id now
      ]
    ]
