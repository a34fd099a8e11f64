-- ===== src/Domain/Identity.antt =====
-- The identity of a bot and its archive (crates/homebot-domain/src/lib.rs).
use mathlib.Core.Path.{subst}
use home_bot.Common.{
  ◌≡◌, refl, sym, ap, ◌∙◌, ◌↔◌, ◌⊎◌, inl, inr, Bool, true, false, none, [], ◌∷◌, arith, ℕ, ◌≤◌, ◌<◌,
  ok, err, Bool-cases, Result-cases, any, length, All, refused,
}
use home_bot.Common.Text.{Text, is_control, trim, codes, trim_end, trim_start}
use home_bot.Domain.Bot.{
  Bot, validate_text, BotShape, BotColor, update_identity, DomainError, archive, create, restore,
  bot_not_archived, bot_already_archived,
}
use home_bot.Common.Int.{ℤ}

abbrev pub IsPlain : ℕ → Type 0
IsPlain c = (31 < c) × ((c < 127) ⊎ (159 < c))

-- A text of at most `maximum` code points without control characters.
abbrev pub IsText : ℕ → Text → Type 0
IsText maximum t = (length t ≤ maximum) × All IsPlain t

abbrev pub IsName : Text → Type 0
IsName t = (0 < length t) × IsText 48 t

abbrev pub IsIdentity : Bot → Type 0
IsIdentity bot = IsName bot.name × IsText 80 bot.title × IsText 2000 bot.description

control_iff : (t : Text) → (any is_control t ≡ false) ↔ All IsPlain t
unfolding is_control
control_iff [] = (λ h. tt, λ h. refl)
control_iff (c ∷ t) = ground (arith, control_iff t)

abbrev IsValid : Bool → ℕ → Text → Type 0
IsValid allow_empty maximum t = (allow_empty ≡ false → 0 < length t) × IsText maximum t

validate_text-ok :
    (value field : Text) (maximum : ℕ) (allow_empty : Bool) {t : Text}
    → validate_text value field maximum allow_empty ≡ ok t
    → (t ≡ trim value) × IsValid allow_empty maximum t
unfolding validate_text
validate_text-ok value field maximum allow_empty {t} h =
    let eq : t ≡ trim value = ground arith in
    let few : length (trim value) ≤ maximum = ground arith in
    let plain : any is_control (trim value) ≡ false = ground arith in
    let nonblank : allow_empty ≡ false → 0 < length (trim value) = λ strict. ground arith in
    (
      eq,
      subst (IsValid allow_empty maximum) (sym eq)
          (nonblank, (few, (control_iff (trim value)).0 plain)),
    )

validate_text-valid :
    (value field : Text) (maximum : ℕ) (allow_empty : Bool)
    → IsValid allow_empty maximum (trim value)
    → validate_text value field maximum allow_empty ≡ ok (trim value)
unfolding validate_text
validate_text-valid value field maximum allow_empty (nonblank, (few, plain)) =
    let printable = (control_iff (trim value)).1 plain in
    elim (Bool-cases allow_empty) [
      | inl loose ↦ ground arith
      | inr strict ↦ let some_char = nonblank strict in ground arith
    ]

-- What `update_identity` asks of its texts.
abbrev pub IsAccepted : Text → Text → Text → Type 0
IsAccepted name title description =
    IsName (trim name) × IsText 80 (trim title) × IsText 2000 (trim description)

validate_text-cases :
    (value field : Text) (maximum : ℕ) (allow_empty : Bool)
    → (IsValid allow_empty maximum (trim value)
        × (validate_text value field maximum allow_empty ≡ ok (trim value)))
      ⊎ ((e : DomainError) × (validate_text value field maximum allow_empty ≡ err e))
validate_text-cases value field maximum allow_empty =
    elim (Result-cases (validate_text value field maximum allow_empty)) [
      | inl (t, p) ↦
          let (eq, valid) = validate_text-ok value field maximum allow_empty p in
          inl (subst (IsValid allow_empty maximum) eq valid, p ∙ ap ok eq)
      | inr (e, p) ↦ inr (e, p)
    ]

module _ (bot : Bot) (name title description : Text) (shape : BotShape) (color : BotColor) where
  -- The bot with the texts, trimmed, the shape and the color.
  abbrev pub with_identity : Bot
  with_identity = record bot {
    name = trim name;
    title = trim title;
    description = trim description;
    shape = shape;
    color = color;
  }

  update_identity-ok :
      (update_identity bot name title description shape color).1 ≡ ok tt
      → IsAccepted name title description
  unfolding update_identity
  update_identity-ok h = elim (validate_text-cases name (codes "name") 48 false) [
    | inr (e, p) ↦ absurd (refused _ refl (rw (update_identity, p) at h))
    | inl (n, p) ↦ elim (validate_text-cases title (codes "title") 80 true) [
      | inr (e, q) ↦ absurd (refused _ refl (rw (update_identity, p, q) at h))
      | inl (t, q) ↦ elim (validate_text-cases description (codes "description") 2000 true) [
        | inr (e, u) ↦ absurd (refused _ refl (rw (update_identity, p, q, u) at h))
        | inl (d, u) ↦ ((n.0 refl, n.1), t.1, d.1)
      ]
    ]
  ]

  IsAccepted-result :
      IsAccepted name title description
      → update_identity bot name title description shape color ≡ (with_identity, ok tt)
  unfolding update_identity
  IsAccepted-result (n, t, d) = rw (
    update_identity,
    validate_text-valid name (codes "name") 48 false (λ _. n.0, n.1),
    validate_text-valid title (codes "title") 80 true (λ strict. absurd (cc), t),
    validate_text-valid description (codes "description") 2000 true (λ strict. absurd (cc), d),
  )

  -- `update_identity` returns without an error exactly where, trimmed, the name has between 1 and 48
  -- characters, the title at most 80 and the description at most 2000, none of them a control
  -- character; and exactly then the bot has these three texts, trimmed, with the shape and the color,
  -- and is otherwise as it was.
  pub update_identity_iff :
      (((update_identity bot name title description shape color).1 ≡ ok tt)
        ↔ IsAccepted name title description)
      × ((update_identity bot name title description shape color ≡ (with_identity, ok tt))
          ↔ IsAccepted name title description)
  update_identity_iff = (
    (update_identity-ok, λ accepted. ap (λ o. o.1) (IsAccepted-result accepted)),
    (λ h. update_identity-ok (ap (λ o. o.1) h), IsAccepted-result),
  )

  -- A bot whose identity is valid keeps a valid one under `update_identity`, also where it fails and
  -- leaves the fields before the refused one changed.
  pub update_identity-IsIdentity :
      IsIdentity bot → IsIdentity (update_identity bot name title description shape color).0
  unfolding update_identity
  update_identity-IsIdentity (named, titled, described) =
      elim (validate_text-cases name (codes "name") 48 false) [
        | inr (e, p) ↦ rw (update_identity, p) (named, titled, described)
        | inl (n, p) ↦ elim (validate_text-cases title (codes "title") 80 true) [
          | inr (e, q) ↦ rw (update_identity, p, q) ((n.0 refl, n.1), titled, described)
          | inl (t, q) ↦ elim (validate_text-cases description (codes "description") 2000 true) [
            | inr (e, u) ↦ rw (update_identity, p, q, u) ((n.0 refl, n.1), t.1, described)
            | inl (d, u) ↦ rw (update_identity, p, q, u) ((n.0 refl, n.1), t.1, d.1)
          ]
        ]
      ]

-- A bot that `create` returns has a valid identity: the name and the title that it was given, trimmed,
-- and no description.
pub create-IsIdentity :
    (id : ℕ) (name title : Text) {bot : Bot}
    → create id name title ≡ ok bot
    → IsIdentity bot × (bot.name ≡ trim name) × (bot.title ≡ trim title) × (bot.description ≡ [])
unfolding create update_identity trim trim_end trim_start
create-IsIdentity id name title {bot} h = elim (validate_text-cases name (codes "name") 48 false) [
  | inr (e, p) ↦ absurd (refused _ refl (rw (create, update_identity, p) at h))
  | inl (n, p) ↦ elim (validate_text-cases title (codes "title") 80 true) [
    | inr (e, q) ↦ absurd (refused _ refl (rw (create, update_identity, p, q) at h))
    | inl (t, q) ↦
        let d =
          validate_text-valid [] (codes "description") 2000 true
            (λ strict. absurd (cc), (omega arith, tt)) in
        let named : bot.name ≡ trim name = ground (arith, p, q, d) in
        let titled : bot.title ≡ trim title = ground (arith, p, q, d) in
        let blank : bot.description ≡ [] = ground (arith, p, q, d) in
        (rw (named, titled, blank) ((n.0 refl, n.1), t.1, (omega arith, tt)), named, titled, blank)
  ]
]

-- An active bot that is archived and then restored is the bot as it was but for the time of its last
-- change; in between, it cannot be archived again, and it cannot be restored before.
pub restore-archive :
    (bot : Bot) (archived restored : ℤ)
    → bot.archived_at_ms ≡ none
    → (restore bot restored ≡ (bot, err bot_not_archived))
      × (archive (archive bot archived).0 restored
          ≡ ((archive bot archived).0, err bot_already_archived))
      × (restore (archive bot archived).0 restored
          ≡ (record bot { updated_at_ms = restored }, ok tt))
unfolding archive restore
restore-archive bot archived restored active = ground arith
