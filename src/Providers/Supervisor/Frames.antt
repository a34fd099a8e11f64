-- ===== src/Providers/Supervisor/Frames.antt =====
-- The frames of a stream of bytes, and what `read_bounded_line`
-- (crates/homebot-providers/src/supervisor.rs) takes of a chunk.
use home_bot.Providers.Supervisor.Line.{
  ended, failing, chunk, IoError, Reader, ends_line, newline, take_len, BoundedLine, position,
  consume, too_long, eof, taken, decoded, not_utf8, line,
}
use home_bot.Common.{
  ◌≡◌, refl, sym, ap, ◌∙◌, ◌≢◌, ◌⊎◌, inl, inr, Bool, true, false, List, [], ◌∷◌, ◌++◌, arith, ℕ,
  zero, suc, ◌≤◌, ◌<◌, ok, err, Result, if◌then◌else◌, Bool-cases, Option-cases, ◌==◌, ltb, any,
  length, take, length-append,
}
use home_bot.Common.Text.{Text}
use home_bot.Common.Utf8.{from_utf8}

-- The bytes that a reader has still to give, its chunks joined.

abbrev pub stream : Reader → List ℕ
stream ended = []
stream failing = []
stream (chunk first more rest) = first ∷ more ++ stream rest

abbrev pub IsSteady : Reader → Type 0
IsSteady ended = Unit {0}
IsSteady failing = ⊥
IsSteady (chunk first more rest) = IsSteady rest

-- The bytes up to the first newline, with it, and those behind it.
abbrev pub first_line : List ℕ → List ℕ
first_line [] = []
first_line (b ∷ bytes) = let more = first_line bytes in if b == newline then b ∷ [] else b ∷ more

abbrev pub after_line : List ℕ → List ℕ
after_line [] = []
after_line (b ∷ bytes) = let more = after_line bytes in if b == newline then bytes else more

-- What a frame is read as.
abbrev pub framed : ℕ → List ℕ → Result IoError BoundedLine
framed max_bytes frame =
    if ltb max_bytes (length frame)
    then ok too_long
    else if length frame == 0
    then ok eof
    else decoded frame

abbrev pub has_newline : List ℕ → Bool
has_newline = any (λ b. b == newline)

pub first_line-append :
    (xs ys : List ℕ)
    → first_line (xs ++ ys) ≡ (if has_newline xs then first_line xs else xs ++ first_line ys)
first_line-append [] ys = refl
first_line-append (x ∷ xs) ys = ground (arith, first_line-append xs ys)

pub after_line-append :
    (xs ys : List ℕ)
    → after_line (xs ++ ys) ≡ (if has_newline xs then after_line xs ++ ys else after_line ys)
after_line-append [] ys = refl
after_line-append (x ∷ xs) ys = ground (arith, after_line-append xs ys)

pub take_len-cons :
    (x : ℕ) (xs : List ℕ) → take_len (x ∷ xs) ≡ (if x == newline then 1 else suc (take_len xs))
unfolding take_len position
take_len-cons x xs = elim (Bool-cases (x == newline)) [
  | inl hit ↦ rw (take_len, position, hit)
  | inr miss ↦ elim (Option-cases (position xs)) [
    | inl absent ↦ rw (take_len, position, miss, absent)
    | inr (p, found) ↦ rw (take_len, position, miss, found) (omega arith)
  ]
]

pub take_len_pos : (x : ℕ) (xs : List ℕ) → 0 < take_len (x ∷ xs)
take_len_pos x xs = ground (arith, take_len-cons x xs)

pub take-take_len : (xs : List ℕ) → take (take_len xs) xs ≡ first_line xs
take-take_len [] = unfold take_len position in refl
take-take_len (x ∷ xs) = elim (Bool-cases (x == newline)) [
  | inl hit ↦ rw (take_len-cons x xs, hit)
  | inr miss ↦ rw (take_len-cons x xs, miss) (ap (λ l. x ∷ l) (take-take_len xs))
]

pub length-first_line : (xs : List ℕ) → length (first_line xs) ≡ take_len xs
length-first_line [] = unfold take_len position in refl
length-first_line (x ∷ xs) = ground (arith, take_len-cons x xs, length-first_line xs)

pub consume-zero : (xs : List ℕ) (rest : Reader) → stream (consume zero xs rest) ≡ xs ++ stream rest
unfolding consume
consume-zero [] rest = refl
consume-zero (x ∷ xs) rest = refl

pub stream-consume :
    (xs : List ℕ) (rest : Reader)
    → stream (consume (take_len xs) xs rest)
      ≡ (if has_newline xs then after_line xs ++ stream rest else stream rest)
unfolding consume
stream-consume [] rest = unfold take_len position in refl
stream-consume (x ∷ xs) rest = elim (Bool-cases (x == newline)) [
  | inl hit ↦ rw (take_len-cons x xs, hit) (consume-zero xs rest)
  | inr miss ↦ rw (take_len-cons x xs, miss) (stream-consume xs rest)
]

pub first_line-whole : (xs : List ℕ) → has_newline xs ≡ false → first_line xs ≡ xs
first_line-whole [] h = refl
first_line-whole (x ∷ xs) h = ground (arith, first_line-whole xs)

pub ends_line-append : (xs ys : List ℕ) (y : ℕ) → ends_line (xs ++ y ∷ ys) ≡ ends_line (y ∷ ys)
unfolding ends_line
ends_line-append [] ys y = refl
ends_line-append (x ∷ []) ys y = refl
ends_line-append (x ∷ z ∷ xs) ys y = ends_line-append (z ∷ xs) ys y

pub ends_line-first_line :
    (x : ℕ) (xs : List ℕ) → ends_line (first_line (x ∷ xs)) ≡ has_newline (x ∷ xs)
unfolding ends_line
ends_line-first_line x [] = ground arith
ends_line-first_line x (y ∷ xs) = ground (arith, ends_line-first_line y xs)

pub ends_line-last :
    (bytes : List ℕ) (x : ℕ) (xs : List ℕ)
    → ends_line (bytes ++ first_line (x ∷ xs)) ≡ ends_line (first_line (x ∷ xs))
ends_line-last bytes x xs = elim (Bool-cases (x == newline)) [
  | inl hit ↦ rw hit (ends_line-append bytes [] x)
  | inr miss ↦ rw miss (ends_line-append bytes (first_line xs) x)
]

pub taken-first_line : (xs : List ℕ) → taken xs ≡ first_line xs
unfolding taken
taken-first_line xs = take-take_len xs

pub length-taken : (xs : List ℕ) → length (taken xs) ≡ take_len xs
length-taken xs = ap length (taken-first_line xs) ∙ length-first_line xs

pub ends_line-taken :
    (bytes : List ℕ) (x : ℕ) (xs : List ℕ)
    → ends_line (bytes ++ taken (x ∷ xs)) ≡ has_newline (x ∷ xs)
ends_line-taken bytes x xs =
    ap (λ l. ends_line (bytes ++ l)) (taken-first_line (x ∷ xs))
    ∙ (ends_line-last bytes x xs ∙ ends_line-first_line x xs)

pub taken-hit : (xs ys : List ℕ) → has_newline xs ≡ true → first_line (xs ++ ys) ≡ taken xs
taken-hit xs ys hit =
    first_line-append xs ys ∙ (rw hit (refl {a = first_line xs})) ∙ sym (taken-first_line xs)

pub taken-miss :
    (xs ys : List ℕ) → has_newline xs ≡ false → first_line (xs ++ ys) ≡ taken xs ++ first_line ys
taken-miss xs ys miss =
    first_line-append xs ys
    ∙ (rw miss (refl {a = xs ++ first_line ys}))
    ∙ ap (λ l. l ++ first_line ys) (sym (taken-first_line xs ∙ first_line-whole xs miss))

pub after_line-hit :
    (xs ys : List ℕ) → has_newline xs ≡ true → after_line (xs ++ ys) ≡ after_line xs ++ ys
after_line-hit xs ys hit = rw (after_line-append xs ys, hit)

pub after_line-miss :
    (xs ys : List ℕ) → has_newline xs ≡ false → after_line (xs ++ ys) ≡ after_line ys
after_line-miss xs ys miss = rw (after_line-append xs ys, miss)

pub stream-hit :
    (xs : List ℕ) (rest : Reader)
    → has_newline xs ≡ true
    → stream (consume (take_len xs) xs rest) ≡ after_line xs ++ stream rest
stream-hit xs rest hit = rw (stream-consume xs rest, hit)

pub taken_prefix : (xs ys : List ℕ) → take_len xs ≤ length (first_line (xs ++ ys))
taken_prefix xs ys = elim (Bool-cases (has_newline xs)) [
  | inl hit ↦ rw (taken-hit xs ys hit) (omega (arith, length-taken xs))
  | inr miss ↦
      rw (taken-miss xs ys miss, length-append (taken xs) (first_line ys))
        (omega (arith, length-taken xs))
]

pub framed-over :
    (max_bytes : ℕ) (frame : List ℕ)
    → max_bytes < length frame
    → framed max_bytes frame ≡ ok too_long
framed-over max_bytes frame h = ground arith

pub framed-within :
    (max_bytes : ℕ) (frame : List ℕ)
    → length frame ≤ max_bytes
    → 0 < length frame
    → framed max_bytes frame ≡ decoded frame
framed-within max_bytes frame h nonempty = ground arith

pub decoded_within : (frame : List ℕ) → decoded frame ≢ ok too_long
unfolding decoded
decoded_within frame over = elim (Option-cases (from_utf8 frame)) [
  | inl bad ↦ absurd (err_within (rw (decoded, bad) at over))
  | inr (text, good) ↦ absurd (line_within text (rw (decoded, good) at over))
]
  where
    err_within : ¬ (◌≡◌ {A = Result IoError BoundedLine} (err not_utf8) (ok too_long))
    err_within p = cc

    line_within :
        (text : Text) → ¬ (◌≡◌ {A = Result IoError BoundedLine} (ok (line text)) (ok too_long))
    line_within text p = cc

pub framed-cases :
    (max_bytes : ℕ) (frame : List ℕ)
    → (framed max_bytes frame ≡ ok too_long) ⊎ (framed max_bytes frame ≢ ok too_long)
framed-cases max_bytes frame = elim (Bool-cases (ltb max_bytes (length frame))) [
  | inl over ↦ inl (rw over)
  | inr fits ↦ elim (Bool-cases (length frame == 0)) [
    | inl empty ↦ inr (rw (fits, empty) (λ p. cc))
    | inr more ↦ inr (rw (fits, more) (decoded_within frame))
  ]
]
