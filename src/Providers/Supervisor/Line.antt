-- ===== src/Providers/Supervisor/Line.antt =====
-- crates/homebot-providers/src/supervisor.rs: `read_bounded_line`.
use mathlib.Core.Option
use home_bot.Common.Int.{saturating_add}
use home_bot.Common.{
  Bool, false, Option, none, some, List, [], ◌∷◌, ◌++◌, ℕ, zero, suc, ◌+◌, ok, err, Result,
  if◌then◌else◌, ◌==◌, ltb, length, take,
}
use home_bot.Common.Text.{Text}
use home_bot.Common.Utf8.{from_utf8}

pub data BoundedLine : Type 0 where
  eof too_long : BoundedLine
  line : Text → BoundedLine

pub data IoError : Type 0 where
  read_failed not_utf8 : IoError

-- What an `AsyncBufRead` has still to give: each call of `fill_buf` gives the chunk in front, which
-- is not empty, and `consume` takes its first bytes away.
pub data Reader : Type 0 where
  ended failing : Reader
  chunk : (first : ℕ) (more : List ℕ) → Reader → Reader

abbrev pub newline : ℕ
newline = 10

-- `iter().position(|byte| *byte == b'\n')`.
unfoldable pub position : List ℕ → Option ℕ
position [] = none
position (b ∷ bytes) = if b == newline then some 0 else Option.map suc (position bytes)

unfoldable pub take_len : List ℕ → ℕ
unfolding position
take_len available = elim (position available) [ none ↦ length available | some p ↦ p + 1 ]

-- `&available[..take]`.
unfoldable pub taken : List ℕ → List ℕ
unfolding take_len
taken available = take (take_len available) available

unfoldable pub consume : ℕ → List ℕ → Reader → Reader
consume zero [] rest = rest
consume zero (b ∷ bytes) rest = chunk b bytes rest
consume (suc n) [] rest = rest
consume (suc n) (b ∷ bytes) rest = consume n bytes rest

-- `bytes.last() == Some(&b'\n')`.
unfoldable pub ends_line : List ℕ → Bool
ends_line [] = false
ends_line (b ∷ []) = b == newline
ends_line (b ∷ c ∷ bytes) = ends_line (c ∷ bytes)

unfoldable pub decoded : List ℕ → Result IoError BoundedLine
unfolding from_utf8
decoded bytes = elim (from_utf8 bytes) [ none ↦ err not_utf8 | some t ↦ ok (line t) ]

-- The loop, with the bytes read so far. A round that does not return has taken its whole chunk.
unfoldable pub read_loop : ℕ → List ℕ → Reader → Reader × Result IoError BoundedLine
unfolding take_len taken consume ends_line decoded
read_loop max_bytes bytes ended = (ended, if length bytes == 0 then ok eof else decoded bytes)
read_loop max_bytes bytes failing = (failing, err read_failed)
read_loop max_bytes bytes (chunk first more rest) =
    let available = first ∷ more in
    let n = take_len available in
    let bytes' = bytes ++ taken available in
    let next = read_loop max_bytes bytes' rest in
    if ltb max_bytes (saturating_add (length bytes) n)
    then (chunk first more rest, ok too_long)
    else if ends_line bytes'
    then (consume n available rest, decoded bytes')
    else next

unfoldable pub read_bounded_line : Reader → ℕ → Reader × Result IoError BoundedLine
unfolding read_loop
read_bounded_line reader max_bytes = read_loop max_bytes [] reader
