-- ===== src/Common/Tests.antt =====
-- Boolean tests on the native numbers, the conditional, and results of fallible code.
use Prim.Native.Nat.{ℕ, compare, Ordering}
use mathlib.Core.Path.{◌≡◌, refl}
use mathlib.Core.Logic.{◌≢◌, ◌↔◌, ◌⊎◌, inl, inr}
use mathlib.Core.Bool.{Bool, true, false, ◌&&◌}
use mathlib.Core.Option.{Option, none, some}
use native.Mathlib.Omega.{arith}

abbrev pub ltb : ℕ → ℕ → Bool
ltb a b = elim (compare a b) [ Ordering.lt ↦ true | _ ↦ false ]

abbrev pub leb : ℕ → ℕ → Bool
leb a b = elim (compare a b) [ Ordering.gt ↦ false | _ ↦ true ]

infix 50 ◌==◌
abbrev pub ◌==◌ : ℕ → ℕ → Bool
a == b = elim (compare a b) [ Ordering.eq ↦ true | _ ↦ false ]

infix 1 if◌then◌else◌
abbrev pub if◌then◌else◌ {ℓ} : {A : Type ℓ} → Bool → A → A → A
if true then x else y = x
if false then x else y = y

pub ==_iff : (a b : ℕ) → ((a == b) ≡ true) ↔ (a ≡ b)
==_iff a b = ground arith

pub Bool-cases : (b : Bool) → (b ≡ true) ⊎ (b ≡ false)
Bool-cases true = inl refl
Bool-cases false = inr refl

pub Option-cases {ℓ} : {A : Type ℓ} (o : Option A) → (o ≡ none) ⊎ ((a : A) × (o ≡ some a))
Option-cases none = inl refl
Option-cases (some a) = inr (a, refl)

abbrev pub is_some {ℓ} : {A : Type ℓ} → Option A → Bool
is_some none = false
is_some (some _) = true

abbrev pub is_none {ℓ} : {A : Type ℓ} → Option A → Bool
is_none none = true
is_none (some _) = false

-- `Option::is_none_or` and `Option::is_some_and`.
abbrev pub is_none_or {ℓ} : {A : Type ℓ} → Option A → (A → Bool) → Bool
is_none_or none p = true
is_none_or (some a) p = p a

abbrev pub is_some_and {ℓ} : {A : Type ℓ} → Option A → (A → Bool) → Bool
is_some_and none p = false
is_some_and (some a) p = p a

-- Rust's `Result<A, E>`.
pub data Result {ℓ κ} (E : Type κ) (A : Type ℓ) : Type (ℓ ⊔ κ) where
  ok : A → Result E A
  err : E → Result E A

-- The operator `?`.
infixl 5 ◌>>=◌ ◌>>◌
abbrev pub ◌>>=◌ {ℓ κ ι} :
    {A : Type ℓ} {B : Type κ} {E : Type ι} → Result E A → (A → Result E B) → Result E B
ok a >>= f = f a
err e >>= f = err e

abbrev pub ◌>>◌ {ℓ ι} : {B : Type ℓ} {E : Type ι} → Result E (Unit {0}) → Result E B → Result E B
m >> k = m >>= λ _. k

-- `if !b { return Err(e) }`.
abbrev pub guard {ι} : {E : Type ι} → Bool → E → Result E (Unit {0})
guard true e = ok tt
guard false e = err e

abbrev pub ok_or {ℓ ι} : {A : Type ℓ} {E : Type ι} → Option A → E → Result E A
ok_or none e = err e
ok_or (some a) e = ok a

abbrev pub map_err {ℓ κ ι} :
    {A : Type ℓ} {D : Type κ} {E : Type ι} → (D → E) → Result D A → Result E A
map_err f (ok a) = ok a
map_err f (err d) = err (f d)

abbrev pub is_ok {ℓ ι} : {A : Type ℓ} {E : Type ι} → Result E A → Bool
is_ok (ok _) = true
is_ok (err _) = false

pub &&_iff : (a b : Bool) → ((a && b) ≡ true) ↔ ((a ≡ true) × (b ≡ true))
&&_iff a b = ground arith

pub Result-cases {ℓ κ} :
    {A : Type ℓ} {E : Type κ} (r : Result E A) → ((a : A) × (r ≡ ok a)) ⊎ ((e : E) × (r ≡ err e))
Result-cases (ok a) = inl (a, refl)
Result-cases (err e) = inr (e, refl)

-- Inversion of the steps of a fallible function that returned.
pub ok_or-bind {ℓ κ ι} :
    {A : Type ℓ} {B : Type κ} {E : Type ι} (o : Option A) (e : E) (f : A → Result E B) {r : B}
    → (ok_or o e >>= f) ≡ ok r
    → (a : A) × (o ≡ some a) × (f a ≡ ok r)
ok_or-bind (some a) e f h = (a, refl, h)
ok_or-bind none e f h = absurd (cc)

pub ok_or-ok {ℓ ι} :
    {A : Type ℓ} {E : Type ι} (o : Option A) (e : E) {a : A} → ok_or o e ≡ ok a → o ≡ some a
ok_or-ok (some b) e h = ground arith
ok_or-ok none e h = absurd (cc)

pub accepted {ℓ ι} :
    {A : Type ℓ} {E : Type ι} (refused : Bool) (e : E) (r : Result E A) {a : A}
    → (if refused then err e else r) ≡ ok a
    → r ≡ ok a
accepted true e r h = absurd (cc)
accepted false e r h = h

pub refused {ℓ κ} :
    {A : Type ℓ} {E : Type κ} (r : Result E A) {e : E} {a : A} → r ≡ err e → r ≢ ok a
refused r p q = cc

pub ok_unique {ℓ κ} :
    {A : Type ℓ} {E : Type κ} (r : Result E A) {a b : A} → r ≡ ok a → r ≡ ok b → a ≡ b
ok_unique r p q = ground arith
