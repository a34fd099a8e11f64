-- ===== src/Common/Int.antt =====
-- Signed integers over the native numbers, and the checked arithmetic of `i64`.
use Prim.Native.Nat.{◌<◌, ◌*◌, ◌/◌, ℕ, suc, ◌+◌, ◌-◌, ◌≤◌}
use mathlib.Core.Path.{◌≡◌}
use mathlib.Core.Bool.{Bool, ◌&&◌}
use mathlib.Core.Option.{Option, none, some}
use native.Mathlib.Omega.{arith}
use home_bot.Common.Tests.{ltb, leb, if◌then◌else◌}

-- `negsuc n` is -(n + 1).
pub data ℤ : Type 0 where
  pos : ℕ → ℤ
  negsuc : ℕ → ℤ

abbrev pub pos_part : ℤ → ℕ
pos_part (pos n) = n
pos_part (negsuc n) = 0

abbrev pub neg_part : ℤ → ℕ
neg_part (pos n) = 0
neg_part (negsuc n) = suc n

abbrev pub sub_ℕ : ℕ → ℕ → ℤ
sub_ℕ a b = if leb b a then pos (a - b) else negsuc (b - a - 1)

infixl 65 ◌+ℤ◌ ◌-ℤ◌
infixl 70 ◌*ℤ◌
infix 50 ◌≤ℤ◌ ◌<ℤ◌
unfoldable pub ◌+ℤ◌ : ℤ → ℤ → ℤ
a +ℤ b = sub_ℕ (pos_part a + pos_part b) (neg_part a + neg_part b)

unfoldable pub ◌-ℤ◌ : ℤ → ℤ → ℤ
a -ℤ b = sub_ℕ (pos_part a + neg_part b) (neg_part a + pos_part b)

abbrev pub ◌≤ℤ◌ : ℤ → ℤ → Type 0
a ≤ℤ b = pos_part a + neg_part b ≤ pos_part b + neg_part a

abbrev pub ◌<ℤ◌ : ℤ → ℤ → Type 0
a <ℤ b = suc (pos_part a + neg_part b) ≤ pos_part b + neg_part a

abbrev pub ltb_ℤ : ℤ → ℤ → Bool
ltb_ℤ a b = ltb (pos_part a + neg_part b) (pos_part b + neg_part a)

abbrev pub leb_ℤ : ℤ → ℤ → Bool
leb_ℤ a b = leb (pos_part a + neg_part b) (pos_part b + neg_part a)

pub +ℤ_parts :
    (a b : ℤ)
    → pos_part (a +ℤ b) + neg_part a + neg_part b ≡ neg_part (a +ℤ b) + pos_part a + pos_part b
unfolding ◌+ℤ◌
+ℤ_parts a b = ground arith

pub -ℤ_parts :
    (a b : ℤ)
    → pos_part (a -ℤ b) + neg_part a + pos_part b ≡ neg_part (a -ℤ b) + pos_part a + neg_part b
unfolding ◌-ℤ◌
-ℤ_parts a b = ground arith

pub eq_of_parts : (a b : ℤ) → pos_part a + neg_part b ≡ pos_part b + neg_part a → a ≡ b
eq_of_parts a b h = ground arith

pub ruleset int_laws = (arith, +ℤ_parts, -ℤ_parts, eq_of_parts)

-- `i64::MAX` is 2 ^ 63 - 1 and `i64::MIN` is -(2 ^ 63).
abbrev pub i64_max : ℤ
i64_max = pos 9223372036854775807

abbrev pub i64_min : ℤ
i64_min = negsuc 9223372036854775807

abbrev pub IsI64 : ℤ → Type 0
IsI64 a = (i64_min ≤ℤ a) × (a ≤ℤ i64_max)

-- The result of an operation that is checked for overflow.
abbrev pub checked : ℤ → Option ℤ
checked a = if leb_ℤ i64_min a && leb_ℤ a i64_max then some a else none

-- The result of an operation that saturates.
abbrev pub saturated : ℤ → ℤ
saturated a = if ltb_ℤ a i64_min then i64_min else if ltb_ℤ i64_max a then i64_max else a

unfoldable pub ◌*ℤ◌ : ℤ → ℤ → ℤ
a *ℤ b =
    sub_ℕ (pos_part a * pos_part b + neg_part a * neg_part b)
      (pos_part a * neg_part b + neg_part a * pos_part b)

-- `/` of `i64` truncates towards zero.
unfoldable pub div_ℤ : ℤ → ℤ → ℤ
div_ℤ a b =
    sub_ℕ (pos_part a / pos_part b + neg_part a / neg_part b)
      (pos_part a / neg_part b + neg_part a / pos_part b)

abbrev pub is_zero_ℤ : ℤ → Bool
is_zero_ℤ a = leb (pos_part a + neg_part a) 0

-- `i64::checked_add`, `checked_sub`, `checked_mul` and `checked_div`.
unfoldable pub checked_add : ℤ → ℤ → Option ℤ
checked_add a b = checked (a +ℤ b)

unfoldable pub checked_sub : ℤ → ℤ → Option ℤ
checked_sub a b = checked (a -ℤ b)

unfoldable pub checked_mul : ℤ → ℤ → Option ℤ
checked_mul a b = checked (a *ℤ b)

unfoldable pub checked_div : ℤ → ℤ → Option ℤ
checked_div a b = if is_zero_ℤ b then none else checked (div_ℤ a b)

-- `i64::saturating_sub`.
unfoldable pub saturating_sub : ℤ → ℤ → ℤ
unfolding ◌-ℤ◌
saturating_sub a b = saturated (a -ℤ b)

abbrev u32_max : ℕ
u32_max = 4294967295

-- `u32::try_from(n).unwrap_or(u32::MAX)`.
unfoldable pub to_u32 : ℕ → ℕ
to_u32 n = if leb n u32_max then n else u32_max

pub to_u32-small : (n : ℕ) → n < 4294967296 → to_u32 n ≡ n
unfolding to_u32
to_u32-small n h = ground arith

abbrev pub usize_max : ℕ
usize_max = 18446744073709551615

-- `usize::saturating_add` and `u64::saturating_add`.
unfoldable pub saturating_add : ℕ → ℕ → ℕ
saturating_add a b = if ltb usize_max (a + b) then usize_max else a + b

-- Below the largest number, saturation cannot hide that a bound is passed.
pub saturating_add-within : (m a b : ℕ) → m < usize_max → ltb m (saturating_add a b) ≡ ltb m (a + b)
unfolding saturating_add
saturating_add-within m a b h = ground arith

pub saturating_add-small : (a b : ℕ) → a + b < usize_max → saturating_add a b ≡ a + b
unfolding saturating_add
saturating_add-small a b h = ground arith
