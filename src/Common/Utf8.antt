-- ===== src/Common/Utf8.antt =====
-- `String::from_utf8` and `String::from_utf8_lossy` of the standard library, on lists of bytes.
-- What is known of a character after some of its bytes: how many continuation bytes are left, the
-- range of the next one, and the bits so far.
use mathlib.Core.Option
use home_bot.Common.{
  Bool, not, ◌&&◌, Option, none, some, List, [], ◌∷◌, ◌++◌, map, ℕ, ◌+◌, ◌-◌, if◌then◌else◌, ◌==◌,
  ltb, leb, ◌*◌,
}
use home_bot.Common.Text.{Text}

pub data Decoder : Type 0 where
  idle : Decoder
  waiting : (left low high bits : ℕ) → Decoder

abbrev between : ℕ → ℕ → ℕ → Bool
between low high b = leb low b && leb b high

-- The first byte of a character: the characters that end here and the state behind it. `none` stands
-- for a sequence that is not UTF-8.
unfoldable pub lead : ℕ → List (Option ℕ) × Decoder
lead b =
    if ltb b 0x80
    then (some b ∷ [], idle)
    else if between 0xc2 0xdf b
    then ([], waiting 1 0x80 0xbf (b - 0xc0))
    else if b == 0xe0
    then ([], waiting 2 0xa0 0xbf 0)
    else if b == 0xed
    then ([], waiting 2 0x80 0x9f 0xd)
    else if between 0xe1 0xef b
    then ([], waiting 2 0x80 0xbf (b - 0xe0))
    else if b == 0xf0
    then ([], waiting 3 0x90 0xbf 0)
    else if b == 0xf4
    then ([], waiting 3 0x80 0x8f 4)
    else if between 0xf1 0xf3 b
    then ([], waiting 3 0x80 0xbf (b - 0xf0))
    else (none ∷ [], idle)

unfoldable pub decode_byte : Decoder → ℕ → List (Option ℕ) × Decoder
unfolding lead
decode_byte idle b = lead b
decode_byte (waiting left low high bits) b =
    let bits' = bits * 64 + (b - 0x80) in
    if not (between low high b)
    then (none ∷ (lead b).0, (lead b).1)
    else if leb left 1
    then (some bits' ∷ [], idle)
    else ([], waiting (left - 1) 0x80 0xbf bits')

unfoldable pub decode : Decoder → List ℕ → List (Option ℕ)
unfolding decode_byte
decode idle [] = []
decode (waiting left low high bits) [] = none ∷ []
decode d (b ∷ bytes) = let (chars, d') = decode_byte d b in chars ++ decode d' bytes

unfoldable pub all_some : List (Option ℕ) → Option Text
all_some [] = some []
all_some (none ∷ chars) = none
all_some (some c ∷ chars) = Option.map (λ s. c ∷ s) (all_some chars)

unfoldable pub from_utf8 : List ℕ → Option Text
unfolding decode all_some
from_utf8 bytes = all_some (decode idle bytes)

abbrev or_replacement : Option ℕ → ℕ
or_replacement none = 0xfffd
or_replacement (some c) = c

unfoldable pub from_utf8_lossy : List ℕ → Text
unfolding decode
from_utf8_lossy bytes = map or_replacement (decode idle bytes)
