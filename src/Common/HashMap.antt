-- ===== src/Common/HashMap.antt =====
-- `HashMap` as an association list. The order of the list stands for the iteration order, which the
-- standard library leaves open.
use Prim.Native.Nat.{ℕ}
use mathlib.Core.Path.{◌≡◌, refl, subst}
use mathlib.Core.Logic.{◌↔◌, inl, inr}
use mathlib.Core.Bool.{Bool, true}
use mathlib.Core.List.{List, [], ◌∷◌}
use mathlib.Core.Option.{Option, none, some}
use native.Mathlib.Omega.{arith}
use home_bot.Common.Lists.{All}
use home_bot.Common.Tests.{Bool-cases, ◌==◌ as nat_beq, ==_iff, if◌then◌else◌, is_some}
use home_bot.Common.Text.{Text, text_eq, text_eq_iff}

-- `Eq` of the standard library, for the keys.
pub record Eq (K : Type 0) : Type 0 where
  pub beq : K → K → Bool
  pub beq_iff : (a b : K) → (beq a b ≡ true) ↔ (a ≡ b)

instance abbrev pub nat_eq : Eq ℕ
nat_eq = record { beq = nat_beq; beq_iff = ==_iff }

instance abbrev pub text_keys : Eq Text
text_keys = record { beq = text_eq; beq_iff = text_eq_iff }

abbrev pub HashMap : Type 0 → Type 0 → Type 0
HashMap K V = List (K × V)

module _ {K : Type 0} ⦃e : Eq K⦄ {V : Type 0} where
  unfoldable pub get : K → HashMap K V → Option V
  get k [] = none
  get k ((j, v) ∷ m) = if e.beq j k then some v else get k m

  unfoldable pub insert : K → V → HashMap K V → HashMap K V
  insert k v [] = (k, v) ∷ []
  insert k v ((j, w) ∷ m) = if e.beq j k then (k, v) ∷ m else (j, w) ∷ insert k v m

  -- Removes every pair of the key; a map has one at most.
  unfoldable pub remove : K → HashMap K V → HashMap K V
  remove k [] = []
  remove k ((j, v) ∷ m) = let rest = remove k m in if e.beq j k then rest else (j, v) ∷ rest

  abbrev pub contains_key : K → HashMap K V → Bool
  contains_key k m = is_some (get k m)

  pub get-insert :
      (k j : K) (v : V) (m : HashMap K V)
      → get j (insert k v m) ≡ (if e.beq k j then some v else get j m)
  unfolding get insert
  get-insert k j v [] = refl
  get-insert k j v ((i, w) ∷ m) =
      ground (arith, e.beq_iff k j, e.beq_iff i k, e.beq_iff i j, get-insert k j v m)

  pub get-remove :
      (k j : K) (m : HashMap K V) → get j (remove k m) ≡ (if e.beq k j then none else get j m)
  unfolding get remove
  get-remove k j [] = ground arith
  get-remove k j ((i, w) ∷ m) =
      ground (arith, e.beq_iff k j, e.beq_iff i k, e.beq_iff i j, get-remove k j m)

  -- A predicate on the values of a map.
  abbrev pub AllValues {κ} : (V → Type κ) → HashMap K V → Type κ
  AllValues P = All (λ entry. P entry.1)

  pub AllValues-get {κ} :
      (P : V → Type κ) (k : K) (m : HashMap K V) {v : V} → AllValues P m → get k m ≡ some v → P v
  unfolding get
  AllValues-get P k [] h g = absurd (cc)
  AllValues-get P k ((j, w) ∷ m) {v} h g = elim (Bool-cases (e.beq j k)) [
    | inl hit ↦ let same : w ≡ v = ground arith in subst P same h.0
    | inr miss ↦ AllValues-get P k m h.1 (rw miss at g)
  ]

  pub AllValues-insert {κ} :
      (P : V → Type κ) (k : K) (v : V) (m : HashMap K V)
      → P v
      → AllValues P m
      → AllValues P (insert k v m)
  unfolding insert
  AllValues-insert P k v [] p h = (p, tt)
  AllValues-insert P k v ((j, w) ∷ m) p h = elim (Bool-cases (e.beq j k)) [
    | inl hit ↦ rw hit (p, h.1)
    | inr miss ↦ rw miss (h.0, AllValues-insert P k v m p h.1)
  ]

  pub AllValues-remove {κ} :
      (P : V → Type κ) (k : K) (m : HashMap K V) → AllValues P m → AllValues P (remove k m)
  unfolding remove
  AllValues-remove P k [] h = tt
  AllValues-remove P k ((j, w) ∷ m) h = elim (Bool-cases (e.beq j k)) [
    | inl hit ↦ rw hit (AllValues-remove P k m h.1)
    | inr miss ↦ rw miss (h.0, AllValues-remove P k m h.1)
  ]
