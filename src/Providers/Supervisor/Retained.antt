-- ===== src/Providers/Supervisor/Retained.antt =====
-- How much `read_bounded_stderr` (crates/homebot-providers/src/supervisor.rs) keeps.
use home_bot.Common.{
  ◌≡◌, refl, Bool, true, List, [], ◌∷◌, ◌++◌, ℕ, ◌+◌, ◌-◌, ◌≤◌, ◌<◌, arith, Bool-cases, inl, inr,
  ltb, ◌==◌, length,
}
use home_bot.Common.Int.{saturating_add, saturating_add-within, saturating_add-small, usize_max}
use home_bot.Common.Text.{Text, byte_len}
use home_bot.Providers.Supervisor.Line.{Reader, ended, failing, chunk, newline}
use home_bot.Providers.Supervisor.Diagnostics.{
  retain_diagnostic, stderr_byte, stderr_bytes, stderr_loop, read_bounded_stderr,
  BoundedDiagnostics, StderrReader, evict, push_line,
}

-- The bytes of all lines together.
abbrev pub total : List Text → ℕ
total [] = 0
total (line ∷ lines) = byte_len line + total lines

total-append :
    (lines : List Text) (line : Text) → total (lines ++ line ∷ []) ≡ total lines + byte_len line
total-append [] line = ground arith
total-append (l ∷ lines) line = ground (arith, total-append lines line)

module _ (limit : ℕ) (bounded : limit < usize_max) where
  -- The count of bytes is that of the lines kept, and within the limit.
  abbrev IsBounded : BoundedDiagnostics → Type 0
  IsBounded output = (output.bytes ≡ total output.lines) × (output.bytes ≤ limit)

  -- After dropping lines there is room for the new one, unless it is longer than the limit.
  evict-room :
      (line_bytes : ℕ) (lines : List Text) (bytes : ℕ) (truncated : Bool)
      → bytes ≡ total lines
      → bytes ≤ limit
      → let kept = evict line_bytes limit lines bytes truncated in
        IsBounded kept × (line_bytes ≤ limit → kept.bytes + line_bytes ≤ limit)
  unfolding evict
  evict-room line_bytes [] bytes truncated count short = ((count, short), λ fits. omega arith)
  evict-room line_bytes (removed ∷ lines) bytes truncated count short =
      elim (Bool-cases (ltb limit (saturating_add bytes line_bytes))) [
        | inl over ↦ rw over (
            evict-room line_bytes lines (bytes - byte_len removed) true (omega arith) (omega arith))
        | inr fits ↦ rw fits (
          (count, short),
          λ _. ground (arith, saturating_add-within limit bytes line_bytes bounded),
        )
      ]

  push_line-IsBounded :
      (output : BoundedDiagnostics) (line : Text)
      → IsBounded output
      → IsBounded (push_line output line limit)
  unfolding push_line
  push_line-IsBounded output line (count, short) =
      let ((kept_count, kept_short), room) =
        evict-room (byte_len line) output.lines output.bytes output.truncated count short in
      let kept = evict (byte_len line) limit output.lines output.bytes output.truncated in
      elim (Bool-cases (ltb limit (byte_len line))) [
        | inl over ↦ rw over (kept_count, kept_short)
        | inr fits ↦
            let roomy : kept.bytes + byte_len line ≤ limit = room (ground arith) in
            rw
              (
                fits,
                saturating_add-small kept.bytes (byte_len line) (omega arith),
                total-append kept.lines line,
              )
              (omega (arith, kept_count), roomy)
      ]

  module _ (secret_values : List Text) where
    stderr_byte-IsBounded :
        (r : StderrReader) (byte : ℕ)
        → IsBounded r.output
        → IsBounded (stderr_byte limit secret_values r byte).output
    unfolding stderr_byte retain_diagnostic
    stderr_byte-IsBounded r byte within = elim (Bool-cases (byte == newline)) [
      | inl ends ↦ elim (Bool-cases r.discarding_line) [
        | inl discarding ↦ rw (ends, discarding) within
        | inr kept ↦ rw (ends, kept) (push_line-IsBounded r.output _ within)
      ]
      | inr inside ↦ elim (Bool-cases r.discarding_line) [
        | inl discarding ↦ rw (inside, discarding) within
        | inr kept ↦ elim (Bool-cases (ltb (length r.line) 4096)) [
          | inl short ↦ rw (inside, kept, short) within
          | inr long ↦ rw (inside, kept, long) within
        ]
      ]
    ]

    stderr_bytes-IsBounded :
        (r : StderrReader) (bytes : List ℕ)
        → IsBounded r.output
        → IsBounded (stderr_bytes limit secret_values r bytes).output
    unfolding stderr_bytes
    stderr_bytes-IsBounded r [] within = within
    stderr_bytes-IsBounded r (byte ∷ bytes) within =
        stderr_bytes-IsBounded (stderr_byte limit secret_values r byte) bytes
          (stderr_byte-IsBounded r byte within)

    stderr_loop-IsBounded :
        (r : StderrReader) (stderr : Reader)
        → IsBounded r.output
        → IsBounded (stderr_loop limit secret_values r stderr)
    unfolding stderr_loop retain_diagnostic
    stderr_loop-IsBounded r ended within = elim (Bool-cases (length r.line == 0)) [
      | inl none_left ↦ rw none_left within
      | inr left ↦ rw left (push_line-IsBounded r.output _ within)
    ]
    stderr_loop-IsBounded r failing within = within
    stderr_loop-IsBounded r (chunk first more rest) within =
        stderr_loop-IsBounded (stderr_bytes limit secret_values r (first ∷ more)) rest
          (stderr_bytes-IsBounded r (first ∷ more) within)

-- Whatever a process writes to its standard error, also where reading it fails: the bytes that are
-- counted for the lines kept, after redaction, are the bytes of those lines, and they are at most
-- `limit`, which is below `usize::MAX`.
pub read_bounded_stderr-bounded :
    (stderr : Reader) (limit : ℕ) (secret_values : List Text)
    → limit < usize_max
    → let output = read_bounded_stderr stderr limit secret_values in
      (output.bytes ≡ total output.lines) × (total output.lines ≤ limit)
unfolding read_bounded_stderr
read_bounded_stderr-bounded stderr limit secret_values bounded =
    let (count, short) =
      stderr_loop-IsBounded limit bounded secret_values _ stderr (refl, ground arith) in
    (count, omega (arith, count, short))
