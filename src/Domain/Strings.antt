-- ===== src/Domain/Strings.antt =====
-- The names of the variants of an enum (crates/homebot-domain): `as_str` and `FromStr`.
use home_bot.Common.{
  ◌≡◌, ap, ◌∙◌, ◌↔◌, inl, inr, List, [], ◌∷◌, arith, ok, err, Result, if◌then◌else◌, Bool-cases,
  All,
}
use home_bot.Common.Text.{Text, text_eq, text_eq_iff}

-- `match value { "…" => Ok(…), …, _ => Err(…) }`, by its arms.
unfoldable pub match_str : {A E : Type 0} → List (Text × A) → E → Text → Result E A
match_str [] e value = err e
match_str ((literal, a) ∷ arms) e value =
    if text_eq value literal then ok a else match_str arms e value

-- `from_str` reads exactly the names that `as_str` writes, each as its variant.
abbrev pub IsNaming : {A E : Type 0} → (A → Text) → (Text → Result E A) → Type 0
IsNaming {A} as_str from_str = (value : Text) (a : A) → (from_str value ≡ ok a) ↔ (value ≡ as_str a)

match_str-ok :
    {A E : Type 0} (as_str : A → Text) (arms : List (Text × A)) (e : E) (value : Text) {a : A}
    → All (λ arm. arm.0 ≡ as_str arm.1) arms
    → match_str arms e value ≡ ok a
    → value ≡ as_str a
unfolding match_str
match_str-ok as_str [] e value h p = absurd (cc)
match_str-ok as_str ((literal, b) ∷ arms) e value {a} h p =
    elim (Bool-cases (text_eq value literal)) [
      | inl hit ↦
          let eq : b ≡ a = ground arith in (text_eq_iff value literal).0 hit ∙ h.0 ∙ ap as_str eq
      | inr miss ↦ match_str-ok as_str arms e value h.1 (rw miss at p)
    ]

pub IsNaming-match_str :
    {A E : Type 0} (as_str : A → Text) (arms : List (Text × A)) (e : E)
    → All (λ arm. arm.0 ≡ as_str arm.1) arms
    → ((a : A) → match_str arms e (as_str a) ≡ ok a)
    → IsNaming as_str (match_str arms e)
IsNaming-match_str as_str arms e h back value a =
    (match_str-ok as_str arms e value h, λ eq. ap (match_str arms e) eq ∙ back a)
