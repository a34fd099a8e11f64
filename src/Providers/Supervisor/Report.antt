-- ===== src/Providers/Supervisor/Report.antt =====
-- The report of a process that was supervised (crates/homebot-providers/src/supervisor.rs).
use home_bot.Common.{
  ◌≡◌, refl, false, Option, none, some, ℕ, ◌≤◌, ◌<◌, arith, Result, ok, err, Result-cases,
  Option-cases, inl, inr, if◌then◌else◌, ltb, refused, ok_unique,
}
use home_bot.Common.Int.{usize_max, ℤ}
use home_bot.Common.Text.{Text, codes}
use mathlib.Core.Path.{subst}
use mathlib.Core.Option.{none-ne-some, some-injective}
use home_bot.Providers.Supervisor.Spawn.{ErrorKind, spawn_child}
use home_bot.Providers.Supervisor.Process.{
  ProcessSpec, Spawned, supervise, SupervisedProcess, ProcessReport, ProcessError,
  ProcessTermination, ExitStatus, report, reaped, wait, shutdown, kill_and_reap,
}
use home_bot.Providers.Supervisor.Diagnostics.{BoundedDiagnostics}
use home_bot.Providers.Supervisor.Retained.{total}
use home_bot.Providers.Supervisor.Complete.{read_bounded_stderr_complete}

-- The lines that the task behind a process gives are within a limit.
abbrev IsBounded : ℕ → Option (Result ℕ BoundedDiagnostics) → Type 0
IsBounded limit none = Unit {0}
IsBounded limit (some (err e)) = Unit {0}
IsBounded limit (some (ok output)) = total output.lines ≤ limit

abbrev pub IsShort : ℕ → Result ProcessError ProcessReport → Type 0
IsShort limit (err e) = Unit {0}
IsShort limit (ok r) = total r.stderr_tail ≤ limit

module _ (limit : ℕ) (p : SupervisedProcess) (bounded : IsBounded limit p.stderr) where
  report-IsShort :
      (q : SupervisedProcess) (termination : ProcessTermination) (code : Option ℤ) (id now : ℕ)
      → q.stderr ≡ p.stderr
      → IsShort limit (report q termination code id now).1
  unfolding report
  report-IsShort q termination code id now same = elim (Option-cases p.stderr) [
    | inl absent ↦ rw (report, same, absent) (ground arith)
    | inr (err e, present) ↦ rw (report, same, present) tt
    | inr (ok output, present) ↦ rw (report, same, present) (rw present at bounded)
  ]

  reaped-IsShort :
      (q : SupervisedProcess) (result : Result ℕ ExitStatus) (f : ExitStatus → ProcessTermination)
      (id now : ℕ)
      → q.stderr ≡ p.stderr
      → IsShort limit (reaped q result f id now).1
  unfolding reaped
  reaped-IsShort q (err e) f id now same = tt
  reaped-IsShort q (ok status) f id now same =
      report-IsShort (record q { child = none }) (f status) status.code id now same

  wait-IsShort : (id now : ℕ) → IsShort limit (wait p id now).1
  unfolding wait
  wait-IsShort id now = elim (Option-cases p.child) [
    | inl absent ↦ rw (wait, absent) tt
    | inr (child, present) ↦
        rw (wait, present) (reaped-IsShort (record p { stdin = false }) child.wait _ id now refl)
  ]

  shutdown-IsShort : (id now : ℕ) → IsShort limit (shutdown p id now).1
  unfolding shutdown kill_and_reap
  shutdown-IsShort id now = elim (Option-cases p.child) [
    | inl absent ↦ rw (shutdown, absent) tt
    | inr (child, present) ↦ elim (Option-cases (child.wait_within p.limits.shutdown_grace)) [
      | inr (status, in_time) ↦
          rw (shutdown, present, in_time)
            (reaped-IsShort (record p { stdin = false }) status _ id now refl)
      | inl late ↦ elim (Result-cases child.start_kill) [
        | inr (e, failed) ↦ rw (shutdown, kill_and_reap, present, late, failed) tt
        | inl (done, killed) ↦
            rw (shutdown, kill_and_reap, present, late, killed)
              (reaped-IsShort (record p { stdin = false }) child.wait_killed _ id now refl)
      ]
    ]
  ]

abbrev pub stderr_limit : ProcessSpec → ℕ
stderr_limit spec = if ltb spec.limits.max_stderr_bytes 1 then 1 else spec.limits.max_stderr_bytes

supervise-IsBounded :
    (spec : ProcessSpec) (file_name : Option Text) (spawn : ℕ → Result ErrorKind Spawned) (now : ℕ)
    (p : SupervisedProcess)
    → spec.limits.max_stderr_bytes < usize_max
    → supervise spec file_name spawn now ≡ some (ok p)
    → IsBounded (stderr_limit spec) p.stderr
unfolding supervise
supervise-IsBounded spec file_name spawn now p small h =
    let program : Text = elim file_name [ none ↦ codes "provider" | some name ↦ name ] in
    elim (Option-cases (spawn_child spawn program)) [
      | inl stuck ↦ absurd (none-ne-some (ok p) (rw (supervise, stuck) at h))
      | inr (err e, failed) ↦
          absurd (refused _ refl (some-injective _ _ (rw (supervise, failed) at h)))
      | inr (ok spawned, started) ↦ elim (Option-cases spawned.stderr) [
        | inl missing ↦
            absurd (refused _ refl (some-injective _ _ (rw (supervise, started, missing) at h)))
        | inr (reader, piped) ↦
            subst (λ q. IsBounded (stderr_limit spec) q.stderr)
              (ok_unique _ refl (some-injective _ _ (rw (supervise, started, piped) at h)))
              (read_bounded_stderr_complete reader (stderr_limit spec) spec.secret_values
                (ground arith)).1
      ]
    ]

-- A process was started under a specification whose limit on the diagnostics is below `usize::MAX`.
-- Whatever its child does, the report of `wait` and that of `shutdown`, where there is one, has lines
-- of the standard error that together take no more bytes than the limit, of which one is always
-- allowed.
pub supervise-report :
    (spec : ProcessSpec) (file_name : Option Text) (spawn : ℕ → Result ErrorKind Spawned) (now : ℕ)
    (p : SupervisedProcess)
    → spec.limits.max_stderr_bytes < usize_max
    → supervise spec file_name spawn now ≡ some (ok p)
    → (diagnostic_id later : ℕ)
    → IsShort (stderr_limit spec) (wait p diagnostic_id later).1
      × IsShort (stderr_limit spec) (shutdown p diagnostic_id later).1
supervise-report spec file_name spawn now p small h diagnostic_id later =
    let bounded = supervise-IsBounded spec file_name spawn now p small h in
    (
      wait-IsShort (stderr_limit spec) p bounded diagnostic_id later,
      shutdown-IsShort (stderr_limit spec) p bounded diagnostic_id later,
    )
