-- ===== src/Domain/Bot.antt =====
-- crates/homebot-domain/src/lib.rs: bots, their enums and the checks on their texts. An identifier
-- that the source draws is an argument.
use home_bot.Common.{
  Bool, true, false, not, ◌&&◌, Option, none, some, [], ◌∷◌, ℕ, ok, err, Result, if◌then◌else◌,
  ◌==◌, ltb, ◌>>=◌, is_none, is_some, length, any, List,
}
use home_bot.Domain.Strings.{match_str}
use home_bot.Common.Text.{Text, codes, trim, is_control}
use home_bot.Common.Int.{ℤ, pos}

pub data DomainError : Type 0 where
  empty_bot_name invalid_bot_shape invalid_bot_color invalid_bot_attention : DomainError
  invalid_permission_profile bot_already_archived bot_not_archived : DomainError
  text_too_long : Text → ℕ → ℕ → DomainError
  control_character : Text → DomainError

abbrev pub bot_name_max_chars : ℕ
bot_name_max_chars = 48

abbrev pub bot_title_max_chars : ℕ
bot_title_max_chars = 80

abbrev pub bot_description_max_chars : ℕ
bot_description_max_chars = 2000

pub data BotShape : Type 0 where
  circle rounded_square hexagon : BotShape

unfoldable pub bot_shape_as_str : BotShape → Text
bot_shape_as_str circle = codes "circle"
bot_shape_as_str rounded_square = codes "rounded_square"
bot_shape_as_str hexagon = codes "hexagon"

abbrev pub bot_shape_arms : List (Text × BotShape)
bot_shape_arms =
    (codes "circle", circle)
    ∷ (codes "rounded_square", rounded_square)
    ∷ (codes "hexagon", hexagon)
    ∷ []

unfoldable pub bot_shape_from_str : Text → Result DomainError BotShape
unfolding match_str
bot_shape_from_str = match_str bot_shape_arms invalid_bot_shape

pub data BotColor : Type 0 where
  violet blue green orange rose slate : BotColor

unfoldable pub bot_color_as_str : BotColor → Text
bot_color_as_str violet = codes "violet"
bot_color_as_str blue = codes "blue"
bot_color_as_str green = codes "green"
bot_color_as_str orange = codes "orange"
bot_color_as_str rose = codes "rose"
bot_color_as_str slate = codes "slate"

abbrev pub bot_color_arms : List (Text × BotColor)
bot_color_arms =
    (codes "violet", violet)
    ∷ (codes "blue", blue)
    ∷ (codes "green", green)
    ∷ (codes "orange", orange)
    ∷ (codes "rose", rose)
    ∷ (codes "slate", slate)
    ∷ []

unfoldable pub bot_color_from_str : Text → Result DomainError BotColor
unfolding match_str
bot_color_from_str = match_str bot_color_arms invalid_bot_color

-- `calm` is the variant `None`.
pub data BotAttention : Type 0 where
  calm working needs_approval failed : BotAttention

unfoldable pub bot_attention_as_str : BotAttention → Text
bot_attention_as_str calm = codes "none"
bot_attention_as_str working = codes "working"
bot_attention_as_str needs_approval = codes "needs_approval"
bot_attention_as_str failed = codes "failed"

abbrev pub bot_attention_arms : List (Text × BotAttention)
bot_attention_arms =
    (codes "none", calm)
    ∷ (codes "working", working)
    ∷ (codes "needs_approval", needs_approval)
    ∷ (codes "failed", failed)
    ∷ []

unfoldable pub bot_attention_from_str : Text → Result DomainError BotAttention
unfolding match_str
bot_attention_from_str = match_str bot_attention_arms invalid_bot_attention

pub data BotPermissionProfile : Type 0 where
  read_only ask_before_changes trusted : BotPermissionProfile

unfoldable pub permission_profile_as_str : BotPermissionProfile → Text
permission_profile_as_str read_only = codes "read_only"
permission_profile_as_str ask_before_changes = codes "ask_before_changes"
permission_profile_as_str trusted = codes "trusted"

abbrev pub permission_profile_arms : List (Text × BotPermissionProfile)
permission_profile_arms =
    (codes "read_only", read_only)
    ∷ (codes "ask_before_changes", ask_before_changes)
    ∷ (codes "trusted", trusted)
    ∷ []

unfoldable pub permission_profile_from_str : Text → Result DomainError BotPermissionProfile
unfolding match_str
permission_profile_from_str = match_str permission_profile_arms invalid_permission_profile

pub record Bot : Type 0 where
  pub id : ℕ
  pub name : Text
  pub title : Text
  pub description : Text
  pub shape : BotShape
  pub color : BotColor
  pub provider_profile_id : Option ℕ
  pub permission_profile : BotPermissionProfile
  pub archived_at_ms : Option ℤ
  pub pinned_at_ms : Option ℤ
  pub hidden_at_ms : Option ℤ
  pub unread_count : ℕ
  pub attention : BotAttention
  pub created_at_ms : ℤ
  pub updated_at_ms : ℤ

unfoldable pub validate_text : Text → Text → ℕ → Bool → Result DomainError Text
validate_text value field maximum allow_empty =
    let trimmed = trim value in
    if not allow_empty && length trimmed == 0
    then err empty_bot_name
    else if ltb maximum (length trimmed)
    then err (text_too_long field maximum (length trimmed))
    else if any is_control trimmed
    then err (control_character field)
    else ok trimmed

-- The fields are set one after the other: an error leaves those before it changed.
unfoldable pub update_identity :
    Bot → Text → Text → Text → BotShape → BotColor → Bot × Result DomainError (Unit {0})
update_identity bot name title description shape color =
    elim (validate_text name (codes "name") bot_name_max_chars false) [
      | err e ↦ (bot, err e)
      | ok name' ↦
          let named : Bot = record bot { name = name' } in
          elim (validate_text title (codes "title") bot_title_max_chars true) [
            | err e ↦ (named, err e)
            | ok title' ↦
                let titled : Bot = record named { title = title' } in
                elim (validate_text description (codes "description") bot_description_max_chars
                  true) [
                    | err e ↦ (titled, err e)
                    | ok description' ↦ (
                      record titled { description = description'; shape = shape; color = color },
                      ok tt,
                    )
                  ]
          ]
    ]

unfoldable pub create : ℕ → Text → Text → Result DomainError Bot
unfolding update_identity
create id name title =
    let bot : Bot = record {
      id = id;
      name = [];
      title = [];
      description = [];
      shape = rounded_square;
      color = violet;
      provider_profile_id = none;
      permission_profile = ask_before_changes;
      archived_at_ms = none;
      pinned_at_ms = none;
      hidden_at_ms = none;
      unread_count = 0;
      attention = calm;
      created_at_ms = pos 0;
      updated_at_ms = pos 0;
    } in
    let (updated, result) = update_identity bot name title [] bot.shape bot.color in
    result >>= λ _. ok updated

unfoldable pub archive : Bot → ℤ → Bot × Result DomainError (Unit {0})
archive bot now_ms =
    if is_some bot.archived_at_ms
    then (bot, err bot_already_archived)
    else (record bot { archived_at_ms = some now_ms; updated_at_ms = now_ms }, ok tt)

unfoldable pub restore : Bot → ℤ → Bot × Result DomainError (Unit {0})
restore bot now_ms =
    if is_none bot.archived_at_ms
    then (bot, err bot_not_archived)
    else (record bot { archived_at_ms = none; updated_at_ms = now_ms }, ok tt)
