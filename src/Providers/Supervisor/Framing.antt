-- ===== src/Providers/Supervisor/Framing.antt =====
-- `read_bounded_line` (crates/homebot-providers/src/supervisor.rs) on the stream of bytes behind a
-- reader.
use home_bot.Common.{
  ◌≡◌, refl, sym, ap, ◌∙◌, ◌≢◌, ◌⊎◌, inl, inr, true, false, List, [], ◌∷◌, ◌++◌, arith, ℕ, ◌≤◌, ◌<◌,
  ok, Result, if◌then◌else◌, Bool-cases, ◌==◌, ltb, length, length-append,
}
use mathlib.Core.List.{append_assoc, append-nil}
use home_bot.Common.Int.{usize_max, saturating_add, saturating_add-within}
use home_bot.Providers.Supervisor.Line.{
  ended, failing, read_bounded_line, Reader, read_loop, IoError, eof, take_len, BoundedLine,
  decoded, taken, too_long, chunk, consume,
}
use home_bot.Providers.Supervisor.Frames.{
  IsSteady, first_line, framed, has_newline, stream, after_line, framed-over, ends_line-taken,
  framed-cases, framed-within, length-taken, taken_prefix, take_len_pos, taken-hit, stream-hit,
  after_line-hit, taken-miss, after_line-miss,
}

module _ (max_bytes : ℕ) (bounded : max_bytes < usize_max) where
  -- What is read is the frame that the bytes left begin with, and the reader has the bytes behind it.
  abbrev Frames : List ℕ → List ℕ → Reader × Result IoError BoundedLine → Type 0
  Frames bytes left (reader', result) =
      (result ≡ framed max_bytes (bytes ++ first_line left))
      × (result ≢ ok too_long → stream reader' ≡ after_line left)

  framed-ended :
      (bytes : List ℕ)
      → length bytes ≤ max_bytes
      → (if length bytes == 0 then ok eof else decoded bytes) ≡ framed max_bytes (bytes ++ [])
  framed-ended bytes short = rw (append-nil bytes) (ground arith)

  longer :
      (bytes xs ys : List ℕ)
      → ltb max_bytes (saturating_add (length bytes) (take_len xs)) ≡ true
      → max_bytes < length (bytes ++ first_line (xs ++ ys))
  longer bytes xs ys over = ground (
    arith,
    saturating_add-within max_bytes (length bytes) (take_len xs) bounded,
    length-append bytes (first_line (xs ++ ys)),
    taken_prefix xs ys,
  )

  shorter :
      (bytes xs : List ℕ)
      → ltb max_bytes (saturating_add (length bytes) (take_len xs)) ≡ false
      → length (bytes ++ taken xs) ≤ max_bytes
  shorter bytes xs fits = ground (
    arith,
    saturating_add-within max_bytes (length bytes) (take_len xs) bounded,
    length-append bytes (taken xs),
    length-taken xs,
  )

  Frames-over :
      (bytes xs ys : List ℕ) (reader : Reader)
      → ltb max_bytes (saturating_add (length bytes) (take_len xs)) ≡ true
      → Frames bytes (xs ++ ys) (reader, ok too_long)
  Frames-over bytes xs ys reader over = (
    sym (framed-over max_bytes (bytes ++ first_line (xs ++ ys)) (longer bytes xs ys over)),
    λ refused. absurd (refused refl),
  )

  Frames-hit :
      (bytes : List ℕ) (x : ℕ) (xs : List ℕ) (rest : Reader)
      → ltb max_bytes (saturating_add (length bytes) (take_len (x ∷ xs))) ≡ false
      → has_newline (x ∷ xs) ≡ true
      → Frames bytes
          (x ∷ xs ++ stream rest)
          (consume (take_len (x ∷ xs)) (x ∷ xs) rest, decoded (bytes ++ taken (x ∷ xs)))
  Frames-hit bytes x xs rest fits hit = (
    sym (
          framed-within max_bytes (bytes ++ taken (x ∷ xs)) (shorter bytes (x ∷ xs) fits) (
            omega (
              arith,
              length-append bytes (taken (x ∷ xs)),
              length-taken (x ∷ xs),
              take_len_pos x xs,
            )))
        ∙ ap (λ l. framed max_bytes (bytes ++ l)) (sym (taken-hit (x ∷ xs) (stream rest) hit)),
    λ _. stream-hit (x ∷ xs) rest hit ∙ sym (after_line-hit (x ∷ xs) (stream rest) hit),
  )

  Frames-miss :
      (bytes xs ys : List ℕ) (next : Reader × Result IoError BoundedLine)
      → has_newline xs ≡ false
      → Frames (bytes ++ taken xs) ys next
      → Frames bytes (xs ++ ys) next
  Frames-miss bytes xs ys next miss (read, left) = (
    read
        ∙ ap (framed max_bytes) (
            append_assoc bytes (taken xs) (first_line ys)
            ∙ ap (λ l. bytes ++ l) (sym (taken-miss xs ys miss))),
    λ line. left line ∙ sym (after_line-miss xs ys miss),
  )

  read_loop-Frames :
      (bytes : List ℕ) (reader : Reader)
      → IsSteady reader
      → length bytes ≤ max_bytes
      → Frames bytes (stream reader) (read_loop max_bytes bytes reader)
  unfolding read_loop
  read_loop-Frames bytes ended steady short = (framed-ended bytes short, λ _. refl)
  read_loop-Frames bytes failing steady short = elim steady [ ]
  read_loop-Frames bytes (chunk first more rest) steady short =
      elim (Bool-cases (ltb max_bytes (saturating_add (length bytes) (take_len (first ∷ more))))) [
        | inl over ↦
            rw (read_loop, over)
              (Frames-over bytes (first ∷ more) (stream rest) (chunk first more rest) over)
        | inr fits ↦ elim (Bool-cases (has_newline (first ∷ more))) [
          | inl hit ↦
              rw (read_loop, fits, ends_line-taken bytes first more, hit)
                (Frames-hit bytes first more rest fits hit)
          | inr miss ↦
              rw (read_loop, fits, ends_line-taken bytes first more, miss)
                (Frames-miss bytes (first ∷ more) (stream rest) _ miss (
                  read_loop-Frames (bytes ++ taken (first ∷ more)) rest steady
                    (shorter bytes (first ∷ more) fits)))
        ]
      ]

-- A line is read from a reader that does not fail, with a limit below `usize::MAX`. However its
-- bytes are cut into chunks, the result is that of the frame up to the first newline of all the
-- bytes left: too long where the frame has more than `max_bytes`, the end where there is none, and
-- else the frame decoded. Unless it is too long, the reader has the bytes behind the frame left.
pub read_bounded_line-framed :
    (reader : Reader) (max_bytes : ℕ)
    → max_bytes < usize_max
    → IsSteady reader
    → let (reader', result) = read_bounded_line reader max_bytes in
      (result ≡ framed max_bytes (first_line (stream reader)))
      × ((result ≡ ok too_long) ⊎ (stream reader' ≡ after_line (stream reader)))
unfolding read_bounded_line
read_bounded_line-framed reader max_bytes bounded steady =
    let (read, left) = read_loop-Frames max_bytes bounded [] reader steady (ground arith) in
    (
      read,
      elim (framed-cases max_bytes (first_line (stream reader))) [
        | inl over ↦ inl (read ∙ over)
        | inr fits ↦ inr (left (λ over. fits (sym read ∙ over)))
      ],
    )
