-- ===== src/Domain/Naming.antt =====
-- The names that the enums have in the database (crates/homebot-domain).
use home_bot.Domain.Bot.{
  circle, rounded_square, hexagon, violet, blue, green, orange, rose, slate, calm, working,
  needs_approval, failed, read_only, ask_before_changes, trusted, bot_shape_as_str,
  bot_shape_from_str, bot_color_as_str, bot_color_from_str, bot_attention_as_str,
  bot_attention_from_str, permission_profile_as_str, permission_profile_from_str, bot_shape_arms,
  invalid_bot_shape, bot_color_arms, invalid_bot_color, bot_attention_arms, invalid_bot_attention,
  permission_profile_arms, invalid_permission_profile,
}
use home_bot.Domain.Chat.{
  user, bot, system, queued, streaming, completed, failed, cancelled, owner, member, idle, running,
  waiting, stopped, pending, succeeded, allowed, denied, expired, message_author_as_str,
  message_author_from_str, message_status_as_str, message_status_from_str, participant_role_as_str,
  participant_role_from_str, group_bot_status_as_str, group_bot_status_from_str,
  activity_status_as_str, activity_status_from_str, approval_status_as_str,
  approval_status_from_str, message_author_arms, invalid_author, message_status_arms,
  invalid_status, participant_role_arms, invalid_participant_role, group_bot_status_arms,
  invalid_group_bot_status, activity_status_arms, invalid_activity_status, approval_status_arms,
  invalid_approval_status,
}
use home_bot.Common.{◌≡◌, refl, ok}
use home_bot.Domain.Strings.{match_str, IsNaming, IsNaming-match_str}
use home_bot.Common.Text.{text_eq}

-- The name of each variant of the enums of a bot is read back as that variant, and no other text is
-- read as it.
pub bot_enums-IsNaming :
    IsNaming bot_shape_as_str bot_shape_from_str
    × IsNaming bot_color_as_str bot_color_from_str
    × IsNaming bot_attention_as_str bot_attention_from_str
    × IsNaming permission_profile_as_str permission_profile_from_str
unfolding bot_shape_as_str bot_shape_from_str bot_color_as_str bot_color_from_str
    bot_attention_as_str bot_attention_from_str permission_profile_as_str
    permission_profile_from_str match_str text_eq
bot_enums-IsNaming = (
  IsNaming-match_str bot_shape_as_str bot_shape_arms invalid_bot_shape (refl, (refl, (refl, tt)))
      (λ a.
        elim a as (λ c. match_str bot_shape_arms invalid_bot_shape (bot_shape_as_str c) ≡ ok c) [
          | circle ↦ refl
          | rounded_square ↦ refl
          | hexagon ↦ refl
        ]),
  IsNaming-match_str bot_color_as_str bot_color_arms invalid_bot_color
      (refl, (refl, (refl, (refl, (refl, (refl, tt))))))
      (λ a.
        elim a as (λ c. match_str bot_color_arms invalid_bot_color (bot_color_as_str c) ≡ ok c) [
          | violet ↦ refl
          | blue ↦ refl
          | green ↦ refl
          | orange ↦ refl
          | rose ↦ refl
          | slate ↦ refl
        ]),
  IsNaming-match_str bot_attention_as_str bot_attention_arms invalid_bot_attention
      (refl, (refl, (refl, (refl, tt))))
      (λ a.
        elim a
          as (λ c.
            match_str bot_attention_arms invalid_bot_attention (bot_attention_as_str c) ≡ ok c) [
              | calm ↦ refl
              | working ↦ refl
              | needs_approval ↦ refl
              | failed ↦ refl
            ]),
  IsNaming-match_str permission_profile_as_str permission_profile_arms invalid_permission_profile
      (refl, (refl, (refl, tt)))
      (λ a.
        elim a
          as (λ c.
            match_str permission_profile_arms invalid_permission_profile
              (permission_profile_as_str c)
            ≡ ok c) [ read_only ↦ refl | ask_before_changes ↦ refl | trusted ↦ refl ]),
)

-- The name of each variant of the enums of a chat that has a reader is read back as that variant, and
-- no other text is read as it.
pub chat_enums-IsNaming :
    IsNaming message_author_as_str message_author_from_str
    × IsNaming message_status_as_str message_status_from_str
    × IsNaming participant_role_as_str participant_role_from_str
    × IsNaming group_bot_status_as_str group_bot_status_from_str
    × IsNaming activity_status_as_str activity_status_from_str
    × IsNaming approval_status_as_str approval_status_from_str
unfolding message_author_as_str message_author_from_str message_status_as_str
    message_status_from_str participant_role_as_str participant_role_from_str
    group_bot_status_as_str group_bot_status_from_str activity_status_as_str
    activity_status_from_str approval_status_as_str approval_status_from_str match_str text_eq
chat_enums-IsNaming = (
  IsNaming-match_str message_author_as_str message_author_arms invalid_author
      (refl, (refl, (refl, tt)))
      (λ a.
        elim a
          as (λ c. match_str message_author_arms invalid_author (message_author_as_str c) ≡ ok c) [
            | user ↦ refl
            | bot ↦ refl
            | system ↦ refl
          ]),
  IsNaming-match_str message_status_as_str message_status_arms invalid_status
      (refl, (refl, (refl, (refl, (refl, tt)))))
      (λ a.
        elim a
          as (λ c. match_str message_status_arms invalid_status (message_status_as_str c) ≡ ok c) [
            | queued ↦ refl
            | streaming ↦ refl
            | completed ↦ refl
            | failed ↦ refl
            | cancelled ↦ refl
          ]),
  IsNaming-match_str participant_role_as_str participant_role_arms invalid_participant_role
      (refl, (refl, tt))
      (λ a.
        elim a
          as (λ c.
            match_str participant_role_arms invalid_participant_role (participant_role_as_str c)
            ≡ ok c) [ owner ↦ refl | member ↦ refl ]),
  IsNaming-match_str group_bot_status_as_str group_bot_status_arms invalid_group_bot_status
      (refl, (refl, (refl, (refl, (refl, (refl, tt))))))
      (λ a.
        elim a
          as (λ c.
            match_str group_bot_status_arms invalid_group_bot_status (group_bot_status_as_str c)
            ≡ ok c) [
              | idle ↦ refl
              | running ↦ refl
              | waiting ↦ refl
              | completed ↦ refl
              | failed ↦ refl
              | stopped ↦ refl
            ]),
  IsNaming-match_str activity_status_as_str activity_status_arms invalid_activity_status
      (refl, (refl, (refl, (refl, (refl, tt)))))
      (λ a.
        elim a
          as (λ c.
            match_str activity_status_arms invalid_activity_status (activity_status_as_str c)
            ≡ ok c) [
              | pending ↦ refl
              | running ↦ refl
              | succeeded ↦ refl
              | failed ↦ refl
              | cancelled ↦ refl
            ]),
  IsNaming-match_str approval_status_as_str approval_status_arms invalid_approval_status
      (refl, (refl, (refl, (refl, tt))))
      (λ a.
        elim a
          as (λ c.
            match_str approval_status_arms invalid_approval_status (approval_status_as_str c)
            ≡ ok c) [ pending ↦ refl | allowed ↦ refl | denied ↦ refl | expired ↦ refl ]),
)
