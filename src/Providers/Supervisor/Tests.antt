-- ===== src/Providers/Supervisor/Tests.antt =====
-- Runs of the supervisor's readers and of its spawn loop, and the witnesses of its theorems.
use home_bot.Common.Utf8.{from_utf8, from_utf8_lossy}
use home_bot.Common.{
  none, ◌≡◌, ◌⊎◌, refl, true, some, [], ◌∷◌, ℕ, zero, suc, ◌≤◌, arith, ok, err, Result, map,
}
use home_bot.Common.Text.{codes, byte_len, starts_with, trim_end, is_whitespace}
use home_bot.Common.Int.{saturating_add, pos}
use home_bot.Providers.Supervisor.Line.{Reader, ended, chunk, read_bounded_line, too_long, line}
use home_bot.Providers.Supervisor.Framing.{read_bounded_line-framed}
use home_bot.Providers.Supervisor.Frames.{stream, first_line, after_line, framed}
use home_bot.Providers.Supervisor.Diagnostics.{read_bounded_stderr, replace}
use home_bot.Providers.Supervisor.Process.{
  Child, ProcessSpec, Spawned, SupervisedProcess, supervise, wait, shutdown,
}
use home_bot.Providers.Supervisor.Report.{IsShort, supervise-report}
use home_bot.Providers.Supervisor.Retained.{total}
use home_bot.Providers.Supervisor.Complete.{lines_from, redacted, read_bounded_stderr_complete}
use home_bot.Providers.Supervisor.Spawn.{
  ErrorKind, executable_file_busy, is_busy, spawn_child, spawn_child-settling,
}

from_utf8_runs :
    from_utf8 (0x68 ∷ 0xc3 ∷ 0xa9 ∷ 0xf0 ∷ 0x9f ∷ 0x98 ∷ 0x80 ∷ [])
    ≡ some (0x68 ∷ 0xe9 ∷ 0x1f600 ∷ [])
unfolding from_utf8
from_utf8_runs = refl

from_utf8_lossy_runs :
    from_utf8_lossy (0xe2 ∷ 0x82 ∷ 0x41 ∷ 0xff ∷ []) ≡ 0xfffd ∷ 0x41 ∷ 0xfffd ∷ []
unfolding from_utf8_lossy
from_utf8_lossy_runs = refl

-- "ab\nc", cut after the first byte.
abbrev two_chunks : Reader
two_chunks = chunk 97 [] (chunk 98 (10 ∷ 99 ∷ []) ended)

read_bounded_line_runs :
    read_bounded_line two_chunks 3 ≡ (chunk 99 [] ended, ok (line (97 ∷ 98 ∷ 10 ∷ [])))
unfolding read_bounded_line saturating_add
read_bounded_line_runs = refl

read_bounded_line_long : (read_bounded_line two_chunks 2).1 ≡ ok too_long
unfolding read_bounded_line saturating_add
read_bounded_line_long = refl

read_bounded_line-framed_example :
    let (reader', result) = read_bounded_line two_chunks 3 in
    (result ≡ framed 3 (first_line (stream two_chunks)))
    × ((result ≡ ok too_long) ⊎ (stream reader' ≡ after_line (stream two_chunks)))
read_bounded_line-framed_example = read_bounded_line-framed two_chunks 3 (ground arith) tt

replace_runs : replace (codes "key=abcabc.") (codes "abc") (codes "*") ≡ codes "key=**."
unfolding replace starts_with
replace_runs = refl

-- "key=abc\n" twice, with the secret "abc".
abbrev two_lines : Reader
two_lines = chunk 107 (101 ∷ 121 ∷ 61 ∷ 97 ∷ 98 ∷ 99 ∷ 10 ∷ 107 ∷ 61 ∷ 97 ∷ 98 ∷ 99 ∷ 10 ∷ []) ended

read_bounded_stderr_runs :
    read_bounded_stderr two_lines 20 (codes "abc" ∷ [])
    ≡ record { lines = codes "k=[REDACTED]" ∷ []; bytes = 12; truncated = true }
unfolding read_bounded_stderr saturating_add starts_with byte_len trim_end from_utf8_lossy
    is_whitespace
read_bounded_stderr_runs = refl

read_bounded_stderr_complete_example :
    let output = read_bounded_stderr two_lines 20 (codes "abc" ∷ []) in
    (output.bytes ≡ total output.lines)
    × (total output.lines ≤ 20)
    × ((output.truncated ≡ true)
        ⊎ (output.lines ≡ map (redacted (codes "abc" ∷ [])) (lines_from [] (stream two_lines))))
read_bounded_stderr_complete_example =
    read_bounded_stderr_complete two_lines 20 (codes "abc" ∷ []) (ground arith)

-- The first two attempts are refused as busy.
abbrev busy_twice : ℕ → Result ErrorKind ℕ
busy_twice zero = err executable_file_busy
busy_twice (suc zero) = err executable_file_busy
busy_twice (suc (suc zero)) = err executable_file_busy
busy_twice (suc (suc (suc n))) = ok 42

spawn_child-settling_example : spawn_child busy_twice (codes "codex") ≡ some (ok 42)
unfolding is_busy
spawn_child-settling_example = spawn_child-settling busy_twice (codes "codex")

-- A child that ends with the code 0 within its grace.
abbrev quick_child : Child
quick_child = record {
  wait = ok (record { success = true; code = some (pos 0) });
  wait_within = λ grace. some (ok (record { success = true; code = some (pos 0) }));
  start_kill = ok tt;
  wait_killed = err 1;
}

abbrev codex_spec : ProcessSpec
codex_spec = record {
  program = codes "/usr/bin/codex";
  args = codes "exec" ∷ [];
  current_dir = none;
  environment = [];
  secret_values = codes "abc" ∷ [];
  limits = record { max_stderr_bytes = 20; shutdown_grace = 3000 };
}

abbrev spawns_codex : ℕ → Result ErrorKind Spawned
spawns_codex n =
    ok (record { child = quick_child; stdin = true; stdout = true; stderr = some two_lines })

abbrev codex : SupervisedProcess
codex = record {
  child = some quick_child;
  stdin = true;
  stdout = true;
  stderr = some (ok (read_bounded_stderr two_lines 20 (codes "abc" ∷ [])));
  limits = codex_spec.limits;
  started = 5;
}

codex_supervised : supervise codex_spec (some (codes "codex")) spawns_codex 5 ≡ some (ok codex)
unfolding supervise
codex_supervised = refl

supervise-report_example : IsShort 20 (wait codex 77 9).1 × IsShort 20 (shutdown codex 77 9).1
supervise-report_example =
    supervise-report codex_spec (some (codes "codex")) spawns_codex 5 codex (ground arith)
      codex_supervised 77 9
