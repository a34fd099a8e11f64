-- ===== src/Providers/Supervisor/Diagnostics.antt =====
-- crates/homebot-providers/src/supervisor.rs: the bounded and redacted lines that are kept of what
-- a provider process writes to its standard error.
use home_bot.Common.{
  Bool, true, false, List, [], ◌∷◌, ◌++◌, ℕ, zero, suc, ◌-◌, if◌then◌else◌, ◌==◌, ltb, length,
}
use home_bot.Common.Int.{saturating_add}
use home_bot.Common.Text.{Text, byte_len, codes, starts_with, trim_end}
use home_bot.Common.Utf8.{from_utf8_lossy}
use home_bot.Providers.Supervisor.Line.{Reader, ended, failing, chunk, newline}

pub record BoundedDiagnostics : Type 0 where
  pub lines : List Text
  pub bytes : ℕ
  pub truncated : Bool

abbrev pub no_diagnostics : BoundedDiagnostics
no_diagnostics = record { lines = []; bytes = 0; truncated = false }

-- `str::replace` with a pattern that is not empty: the first argument counts the characters of the
-- occurrence found last that are still to be left out.
unfoldable pub replace_from : ℕ → Text → Text → Text → Text
replace_from skip pattern to [] = []
replace_from zero pattern to (c ∷ text) =
    let kept = replace_from 0 pattern to text in
    let left_out = replace_from (length pattern - 1) pattern to text in
    if starts_with (c ∷ text) pattern then to ++ left_out else c ∷ kept
replace_from (suc skip) pattern to (c ∷ text) = replace_from skip pattern to text

unfoldable pub replace : Text → Text → Text → Text
unfolding replace_from
replace text pattern to = replace_from 0 pattern to text

unfoldable pub redact_all : List Text → Text → Text
unfolding replace
redact_all [] line = line
redact_all (secret ∷ secrets) line = redact_all secrets (replace line secret (codes "[REDACTED]"))

-- The loop that drops the oldest lines until the new one fits.
unfoldable pub evict : (line_bytes limit : ℕ) → List Text → ℕ → Bool → BoundedDiagnostics
evict line_bytes limit [] bytes truncated = record {
  lines = [];
  bytes = bytes;
  truncated = truncated;
}
evict line_bytes limit (removed ∷ lines) bytes truncated =
    let dropped = evict line_bytes limit lines (bytes - byte_len removed) true in
    if ltb limit (saturating_add bytes line_bytes)
    then dropped
    else record { lines = removed ∷ lines; bytes = bytes; truncated = truncated }

unfoldable pub push_line : BoundedDiagnostics → Text → ℕ → BoundedDiagnostics
unfolding evict
push_line output line limit =
    let line_bytes = byte_len line in
    let kept = evict line_bytes limit output.lines output.bytes output.truncated in
    if ltb limit line_bytes
    then record { lines = kept.lines; bytes = kept.bytes; truncated = true }
    else record {
      lines = kept.lines ++ line ∷ [];
      bytes = saturating_add kept.bytes line_bytes;
      truncated = kept.truncated;
    }

unfoldable pub retain_diagnostic : BoundedDiagnostics → List ℕ → ℕ → List Text → BoundedDiagnostics
unfolding redact_all push_line
retain_diagnostic output line limit secret_values =
    push_line output (redact_all secret_values (trim_end (from_utf8_lossy line))) limit

-- The locals of `read_bounded_stderr`.
pub record StderrReader : Type 0 where
  pub output : BoundedDiagnostics
  pub line : List ℕ
  pub discarding_line : Bool

module _ (limit : ℕ) (secret_values : List Text) where
  unfoldable pub stderr_byte : StderrReader → ℕ → StderrReader
  unfolding retain_diagnostic
  stderr_byte r byte =
      if byte == newline
      then record {
        output =
            if r.discarding_line
            then r.output
            else retain_diagnostic r.output r.line limit secret_values;
        line = [];
        discarding_line = false;
      }
      else if r.discarding_line
      then r
      else if ltb (length r.line) 4096
      then record { output = r.output; line = r.line ++ byte ∷ []; discarding_line = false }
      else record {
        output = record { lines = r.output.lines; bytes = r.output.bytes; truncated = true };
        line = [];
        discarding_line = true;
      }

  unfoldable pub stderr_bytes : StderrReader → List ℕ → StderrReader
  unfolding stderr_byte
  stderr_bytes r [] = r
  stderr_bytes r (byte ∷ bytes) = stderr_bytes (stderr_byte r byte) bytes

  unfoldable pub stderr_loop : StderrReader → Reader → BoundedDiagnostics
  unfolding stderr_bytes
  stderr_loop r ended =
      if length r.line == 0 then r.output else retain_diagnostic r.output r.line limit secret_values
  stderr_loop r failing = record {
    lines = r.output.lines;
    bytes = r.output.bytes;
    truncated = true;
  }
  stderr_loop r (chunk first more rest) = stderr_loop (stderr_bytes r (first ∷ more)) rest

unfoldable pub read_bounded_stderr : Reader → ℕ → List Text → BoundedDiagnostics
unfolding stderr_loop
read_bounded_stderr stderr limit secret_values =
    stderr_loop limit secret_values
      record { output = no_diagnostics; line = []; discarding_line = false } stderr
