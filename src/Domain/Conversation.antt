-- ===== src/Domain/Conversation.antt =====
-- crates/homebot-domain/src/chat.rs: the records of messages, groups and approvals, and the message of a
-- user. `serde_json::Value` is the parameter `Json`.
use home_bot.Common.{
  Bool, ◌&&◌, Option, none, some, List, [], ◌∷◌, ◌++◌, ℕ, suc, ok, err, Result, if◌then◌else◌, ◌==◌,
  ltb, length,
}
use home_bot.Common.Int.{ℤ, to_u32}
use home_bot.Common.Text.{Text, trim}
use home_bot.Domain.Chat.{
  ApprovalStatus, ChatDomainError, GroupParticipantRole, MessageAuthor, QueuedPromptKind,
  ActivityStatus, GroupBotStatus, MessageStatus, empty_message, message_too_long, user, completed,
}

-- The identifier of a part, its position and what it holds.
pub data MessagePart : Type 0 where
  text : ℕ → ℕ → Text → MessagePart
  attachment : ℕ → ℕ → ℕ → MessagePart
  notice : ℕ → ℕ → Text → MessagePart

pub record ChatMessage (Json : Type 0) : Type 0 where
  pub id : ℕ
  pub chat_id : ℕ
  pub author : MessageAuthor
  pub author_bot_id : Option ℕ
  pub status : MessageStatus
  pub parts : List MessagePart
  pub reply_to_message_id : Option ℕ
  pub mentioned_bot_ids : List ℕ
  pub shared_context_message_ids : List ℕ
  pub created_at_ms : ℤ
  pub completed_at_ms : Option ℤ
  pub error_json : Option Json

pub record QueuedPrompt : Type 0 where
  pub id : ℕ
  pub owner_id : ℕ
  pub chat_id : ℕ
  pub content : Text
  pub attachment_ids : List ℕ
  pub skill_ids : List ℕ
  pub skill_version_ids : List ℕ
  pub kind : QueuedPromptKind
  pub position : ℕ
  pub created_at_ms : ℤ

pub record GroupChat : Type 0 where
  pub id : ℕ
  pub owner_id : ℕ
  pub title : Text
  pub ownership_bot_id : ℕ
  pub coordination_max_turns : ℕ
  pub coordination_turns_used : ℕ
  pub max_parallel_bots : ℕ
  pub stop_requested : Bool
  pub created_at_ms : ℤ
  pub updated_at_ms : ℤ

pub record GroupParticipant : Type 0 where
  pub chat_id : ℕ
  pub bot_id : ℕ
  pub role : GroupParticipantRole
  pub status : GroupBotStatus
  pub active_operation_id : Option ℕ
  pub updated_at_ms : ℤ

pub record OwnershipHandoff : Type 0 where
  pub id : ℕ
  pub chat_id : ℕ
  pub from_bot_id : ℕ
  pub to_bot_id : ℕ
  pub message_id : Option ℕ
  pub reason : Text
  pub created_at_ms : ℤ

pub record ExecutionActivity (Json : Type 0) : Type 0 where
  pub id : ℕ
  pub chat_id : ℕ
  pub message_id : Option ℕ
  pub kind : Text
  pub title : Text
  pub detail : Text
  pub presentation_json : Json
  pub status : ActivityStatus
  pub requires_attention : Bool
  pub started_at_ms : ℤ
  pub finished_at_ms : Option ℤ

pub record ChatApproval : Type 0 where
  pub id : ℕ
  pub owner_id : ℕ
  pub chat_id : ℕ
  pub message_id : Option ℕ
  pub operation_id : ℕ
  pub capability : Text
  pub title : Text
  pub detail : Text
  pub status : ApprovalStatus
  pub created_at_ms : ℤ
  pub decided_at_ms : Option ℤ

-- The loop of `ChatMessage::user`: `count` parts are in the message, and `uuid` draws the
-- identifier of the part at a position.
unfoldable pub push_attachments : (ℕ → ℕ) → ℕ → List ℕ → List MessagePart
unfolding to_u32
push_attachments uuid count [] = []
push_attachments uuid count (attachment_id ∷ ids) =
    attachment (uuid count) (to_u32 count) attachment_id ∷ push_attachments uuid (suc count) ids

-- `ChatMessage::user`: the identifiers that it draws are those of the parts in their order, then that
-- of the message.
unfoldable pub user_message :
    {Json : Type 0} (uuid : ℕ → ℕ) (chat_id : ℕ) (content : Text) (attachment_ids : List ℕ)
    → Option ℕ
    → List ℕ
    → ℤ
    → Result ChatDomainError (ChatMessage Json)
unfolding push_attachments
user_message uuid chat_id content attachment_ids reply_to mentioned now_ms =
    let trimmed = trim content in
    if length trimmed == 0 && length attachment_ids == 0
    then err empty_message
    else if ltb 100000 (length trimmed)
    then err message_too_long
    else let texts = if length trimmed == 0 then [] else text (uuid 0) 0 trimmed ∷ [] in
      let parts = texts ++ push_attachments uuid (length texts) attachment_ids in
      ok (record {
        id = uuid (length parts);
        chat_id = chat_id;
        author = user;
        author_bot_id = none;
        status = completed;
        parts = parts;
        reply_to_message_id = reply_to;
        mentioned_bot_ids = mentioned;
        shared_context_message_ids = [];
        created_at_ms = now_ms;
        completed_at_ms = some now_ms;
        error_json = none;
      })
