-- ===== src/Providers/Supervisor/Complete.antt =====
-- Which lines `read_bounded_stderr` (crates/homebot-providers/src/supervisor.rs) keeps.
use home_bot.Common.{
  ◌≡◌, refl, sym, ap, ◌∙◌, ◌⊎◌, inl, inr, Bool, true, false, List, [], ◌∷◌, ◌++◌, map, ℕ, ◌≤◌, ◌<◌,
  Bool-cases, ltb, ◌==◌, length, if◌then◌else◌,
}
use home_bot.Common.Int.{saturating_add, usize_max}
use home_bot.Common.Text.{Text, byte_len, trim_end}
use home_bot.Common.Utf8.{from_utf8_lossy}
use mathlib.Core.List.{append_assoc, append-nil}
use home_bot.Providers.Supervisor.Line.{Reader, ended, failing, chunk, newline}
use home_bot.Providers.Supervisor.Frames.{stream}
use home_bot.Providers.Supervisor.Diagnostics.{
  BoundedDiagnostics, StderrReader, evict, push_line, redact_all, retain_diagnostic, stderr_byte,
  stderr_bytes, stderr_loop, read_bounded_stderr,
}
use home_bot.Providers.Supervisor.Retained.{total, read_bounded_stderr-bounded}

-- The lines of some bytes, the first of them begun already. A last line without a newline counts
-- where it is not empty.
abbrev pub lines_from : List ℕ → List ℕ → List (List ℕ)
lines_from begun [] = if length begun == 0 then [] else begun ∷ []
lines_from begun (b ∷ bytes) =
    let next = lines_from [] bytes in
    let longer = lines_from (begun ++ b ∷ []) bytes in if b == newline then begun ∷ next else longer

-- A line as it is kept.
abbrev pub redacted : List Text → List ℕ → Text
redacted secret_values line = redact_all secret_values (trim_end (from_utf8_lossy line))

evict-truncated :
    (line_bytes limit : ℕ) (lines : List Text) (bytes : ℕ) (truncated : Bool)
    → truncated ≡ true
    → (evict line_bytes limit lines bytes truncated).truncated ≡ true
unfolding evict
evict-truncated line_bytes limit [] bytes truncated h = h
evict-truncated line_bytes limit (l ∷ lines) bytes truncated h =
    elim (Bool-cases (ltb limit (saturating_add bytes line_bytes))) [
      | inl over ↦ rw over (evict-truncated line_bytes limit lines _ true refl)
      | inr fits ↦ rw fits h
    ]

evict-lines :
    (line_bytes limit : ℕ) (lines : List Text) (bytes : ℕ) (truncated : Bool)
    → let kept = evict line_bytes limit lines bytes truncated in
      (kept.truncated ≡ true) ⊎ (kept.lines ≡ lines)
unfolding evict
evict-lines line_bytes limit [] bytes truncated = inr refl
evict-lines line_bytes limit (l ∷ lines) bytes truncated =
    elim (Bool-cases (ltb limit (saturating_add bytes line_bytes))) [
      | inl over ↦ rw over (inl (evict-truncated line_bytes limit lines _ true refl))
      | inr fits ↦ rw fits (inr refl)
    ]

push_line-truncated :
    (output : BoundedDiagnostics) (line : Text) (limit : ℕ)
    → output.truncated ≡ true
    → (push_line output line limit).truncated ≡ true
unfolding push_line
push_line-truncated output line limit h = elim (Bool-cases (ltb limit (byte_len line))) [
  | inl over ↦ rw over refl
  | inr fits ↦
      rw fits (evict-truncated (byte_len line) limit output.lines output.bytes output.truncated h)
]

push_line-lines :
    (output : BoundedDiagnostics) (line : Text) (limit : ℕ)
    → let output' = push_line output line limit in
      (output'.truncated ≡ true) ⊎ (output'.lines ≡ output.lines ++ line ∷ [])
unfolding push_line
push_line-lines output line limit = elim (Bool-cases (ltb limit (byte_len line))) [
  | inl over ↦ rw over (inl refl)
  | inr fits ↦
      rw fits (elim (evict-lines (byte_len line) limit output.lines output.bytes output.truncated) [
        | inl dropped ↦ inl dropped
        | inr same ↦ inr (ap (λ ls. ls ++ line ∷ []) same)
      ])
]

module _ (limit : ℕ) (secret_values : List Text) (target : List Text) where
  -- Unless something was dropped, the lines kept and those still to come are the target.
  abbrev Tracks : StderrReader → List ℕ → Type 0
  Tracks r bytes =
      (r.output.truncated ≡ true)
      ⊎ ((r.discarding_line ≡ false)
          × (target ≡ r.output.lines ++ map (redacted secret_values) (lines_from r.line bytes)))

  stderr_byte-truncated :
      (r : StderrReader) (byte : ℕ)
      → r.output.truncated ≡ true
      → (stderr_byte limit secret_values r byte).output.truncated ≡ true
  unfolding stderr_byte retain_diagnostic
  stderr_byte-truncated r byte h = elim (Bool-cases (byte == newline)) [
    | inl ends ↦ elim (Bool-cases r.discarding_line) [
      | inl discarding ↦ rw (ends, discarding) h
      | inr kept ↦
          rw (ends, kept) (push_line-truncated r.output (redacted secret_values r.line) limit h)
    ]
    | inr inside ↦ elim (Bool-cases r.discarding_line) [
      | inl discarding ↦ rw (inside, discarding) h
      | inr kept ↦ elim (Bool-cases (ltb (length r.line) 4096)) [
        | inl short ↦ rw (inside, kept, short) h
        | inr long ↦ rw (inside, kept, long) refl
      ]
    ]
  ]

  stderr_line-Tracks :
      (output : BoundedDiagnostics) (line bytes : List ℕ)
      → target ≡ output.lines ++ map (redacted secret_values) (line ∷ lines_from [] bytes)
      → let output' = retain_diagnostic output line limit secret_values in
        (output'.truncated ≡ true)
        ⊎ ((◌≡◌ {A = Bool} false false)
            × (target ≡ output'.lines ++ map (redacted secret_values) (lines_from [] bytes)))
  unfolding retain_diagnostic
  stderr_line-Tracks output line bytes same =
      elim (push_line-lines output (redacted secret_values line) limit) [
        | inl dropped ↦ inl dropped
        | inr pushed ↦ inr (
          refl,
          same
              ∙ sym (
                  ap (λ ls. ls ++ map (redacted secret_values) (lines_from [] bytes)) pushed
                  ∙ append_assoc output.lines (redacted secret_values line ∷ []) _),
        )
      ]

  stderr_byte-Tracks :
      (r : StderrReader) (byte : ℕ) (bytes : List ℕ)
      → Tracks r (byte ∷ bytes)
      → Tracks (stderr_byte limit secret_values r byte) bytes
  unfolding stderr_byte retain_diagnostic
  stderr_byte-Tracks r byte bytes (inl dropped) = inl (stderr_byte-truncated r byte dropped)
  stderr_byte-Tracks r byte bytes (inr (kept, same)) = elim (Bool-cases (byte == newline)) [
    | inl ends ↦ rw (ends, kept) (stderr_line-Tracks r.output r.line bytes (rw ends at same))
    | inr inside ↦ elim (Bool-cases (ltb (length r.line) 4096)) [
      | inl short ↦ rw (inside, kept, short) (inr (refl, (rw inside at same)))
      | inr long ↦ rw (inside, kept, long) (inl refl)
    ]
  ]

  stderr_bytes-Tracks :
      (r : StderrReader) (bytes more : List ℕ)
      → Tracks r (bytes ++ more)
      → Tracks (stderr_bytes limit secret_values r bytes) more
  unfolding stderr_bytes
  stderr_bytes-Tracks r [] more tracks = tracks
  stderr_bytes-Tracks r (byte ∷ bytes) more tracks =
      stderr_bytes-Tracks (stderr_byte limit secret_values r byte) bytes more
        (stderr_byte-Tracks r byte (bytes ++ more) tracks)

  stderr_loop_complete :
      (r : StderrReader) (stderr : Reader)
      → Tracks r (stream stderr)
      → let output = stderr_loop limit secret_values r stderr in
        (output.truncated ≡ true) ⊎ (output.lines ≡ target)
  unfolding stderr_loop retain_diagnostic
  stderr_loop_complete r ended (inl dropped) = elim (Bool-cases (length r.line == 0)) [
    | inl none_left ↦ rw none_left (inl dropped)
    | inr left ↦
        rw left (inl (push_line-truncated r.output (redacted secret_values r.line) limit dropped))
  ]
  stderr_loop_complete r ended (inr (kept, same)) = elim (Bool-cases (length r.line == 0)) [
    | inl none_left ↦
        rw none_left (inr (sym (append-nil r.output.lines) ∙ sym (rw none_left at same)))
    | inr left ↦ rw left (elim (push_line-lines r.output (redacted secret_values r.line) limit) [
      | inl dropped ↦ inl dropped
      | inr pushed ↦ inr (pushed ∙ sym (rw left at same))
    ])
  ]
  stderr_loop_complete r failing tracks = inl refl
  stderr_loop_complete r (chunk first more rest) tracks =
      stderr_loop_complete (stderr_bytes limit secret_values r (first ∷ more)) rest
        (stderr_bytes-Tracks r (first ∷ more) (stream rest) tracks)

-- Whatever a process writes to its standard error, also where reading it fails, with a limit below
-- `usize::MAX`: the bytes that are counted are those of the lines kept, after redaction, and at most
-- the limit. Unless the diagnostics are marked as truncated, the lines kept are all the lines of the
-- joined bytes, however they are cut into chunks, in order, each trimmed at its end and redacted.
pub read_bounded_stderr_complete :
    (stderr : Reader) (limit : ℕ) (secret_values : List Text)
    → limit < usize_max
    → let output = read_bounded_stderr stderr limit secret_values in
      (output.bytes ≡ total output.lines)
      × (total output.lines ≤ limit)
      × ((output.truncated ≡ true)
          ⊎ (output.lines ≡ map (redacted secret_values) (lines_from [] (stream stderr))))
unfolding read_bounded_stderr
read_bounded_stderr_complete stderr limit secret_values bounded =
    let (count, short) = read_bounded_stderr-bounded stderr limit secret_values bounded in
    (count, short, stderr_loop_complete limit secret_values _ _ stderr (inr (refl, refl)))
