-- ===== src/Domain/Tests.antt =====
-- A bot and a message.
use home_bot.Common.{
  ◌≡◌, refl, ◌↔◌, none, some, [], ◌∷◌, arith, ℕ, ◌+◌, ◌<◌, ok, err, Result, length,
}
use home_bot.Domain.Identity.{
  IsIdentity, update_identity-IsIdentity, update_identity_iff, restore-archive, IsAccepted,
  with_identity,
}
use home_bot.Domain.Chat.{ChatDomainError, empty_message, user, completed, message_too_long}
use home_bot.Domain.Conversation.{ChatMessage, user_message, push_attachments, text, attachment}
use home_bot.Domain.Bot.{
  Bot, restore, update_identity, rounded_square, validate_text, bot_not_archived, circle, hexagon,
  violet, archive, ask_before_changes, blue, rose, bot_already_archived, trusted, calm,
  control_character,
}
use home_bot.Common.Text.{trim, codes, trim_end, trim_start, is_whitespace, is_control}
use home_bot.Common.Int.{to_u32, pos}
use home_bot.Domain.Message.{IsMessageOf, user_message-parts, user_message-refused}

abbrev nova : Bot
nova = record {
  id = 1;
  name = codes "Nova";
  title = codes "Research";
  description = [];
  shape = circle;
  color = blue;
  provider_profile_id = none;
  permission_profile = trusted;
  archived_at_ms = none;
  pinned_at_ms = none;
  hidden_at_ms = none;
  unread_count = 0;
  attention = calm;
  created_at_ms = pos 10;
  updated_at_ms = pos 10;
}

nova-IsIdentity : IsIdentity nova
nova-IsIdentity = ground arith

abbrev nox : Bot
nox = with_identity nova (codes " Nox ") (codes "Ops") [] hexagon rose

update_identity_iff_example :
    (((update_identity nova (codes " Nox ") (codes "Ops") [] hexagon rose).1 ≡ ok tt)
      ↔ IsAccepted (codes " Nox ") (codes "Ops") [])
    × ((update_identity nova (codes " Nox ") (codes "Ops") [] hexagon rose ≡ (nox, ok tt))
        ↔ IsAccepted (codes " Nox ") (codes "Ops") [])
update_identity_iff_example = update_identity_iff nova (codes " Nox ") (codes "Ops") [] hexagon rose

-- The texts are accepted.
nox-accepted : update_identity nova (codes " Nox ") (codes "Ops") [] hexagon rose ≡ (nox, ok tt)
unfolding trim trim_end trim_start is_whitespace
nox-accepted =
    (update_identity_iff nova (codes " Nox ") (codes "Ops") [] hexagon rose).1.1 (ground arith)

-- The refused title leaves the new name.
update_identity-IsIdentity_example :
    IsIdentity (update_identity nova (codes "Nox") (7 ∷ []) [] hexagon rose).0
update_identity-IsIdentity_example =
    update_identity-IsIdentity nova (codes "Nox") (7 ∷ []) [] hexagon rose nova-IsIdentity

update_identity_partial :
    update_identity nova (codes "Nox") (7 ∷ []) [] hexagon rose
    ≡ (record nova { name = codes "Nox" }, err (control_character (codes "title")))
unfolding update_identity validate_text trim trim_end trim_start is_whitespace is_control
update_identity_partial = refl

abbrev created : Bot
created = record nova {
  shape = rounded_square;
  color = violet;
  permission_profile = ask_before_changes;
  created_at_ms = pos 0;
  updated_at_ms = pos 0;
}

restore-archive_example :
    (restore nova (pos 9) ≡ (nova, err bot_not_archived))
    × (archive (archive nova (pos 8)).0 (pos 9)
        ≡ ((archive nova (pos 8)).0, err bot_already_archived))
    × (restore (archive nova (pos 8)).0 (pos 9) ≡ (record nova { updated_at_ms = pos 9 }, ok tt))
restore-archive_example = restore-archive nova (pos 8) (pos 9) refl

abbrev greeting : Result ChatDomainError (ChatMessage ℕ)
greeting = user_message (λ n. 100 + n) 3 (codes " hi ") (8 ∷ 9 ∷ []) none [] (pos 5)

abbrev greeting_message : ChatMessage ℕ
greeting_message = record {
  id = 103;
  chat_id = 3;
  author = user;
  author_bot_id = none;
  status = completed;
  parts = text 100 0 (codes "hi") ∷ attachment 101 1 8 ∷ attachment 102 2 9 ∷ [];
  reply_to_message_id = none;
  mentioned_bot_ids = [];
  shared_context_message_ids = [];
  created_at_ms = pos 5;
  completed_at_ms = some (pos 5);
  error_json = none;
}

user_message-parts_example :
    IsMessageOf (λ n. 100 + n) (trim (codes " hi ")) (8 ∷ 9 ∷ []) greeting_message.parts
unfolding user_message push_attachments to_u32 trim trim_end trim_start is_whitespace
user_message-parts_example =
    user_message-parts (λ n. 100 + n) 3 (codes " hi ") (8 ∷ 9 ∷ []) none [] (pos 5)
      {m = greeting_message} (omega arith) refl

user_message-refused_example :
    ((greeting ≡ err empty_message) ↔ (length (trim (codes " hi ")) + 2 ≡ 0))
    × ((greeting ≡ err message_too_long) ↔ (100000 < length (trim (codes " hi "))))
user_message-refused_example =
    user_message-refused (λ n. 100 + n) 3 (codes " hi ") (8 ∷ 9 ∷ []) none [] (pos 5)
