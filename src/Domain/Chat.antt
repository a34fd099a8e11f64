-- ===== src/Domain/Chat.antt =====
-- crates/homebot-domain/src/chat.rs: the record of a direct chat and the enums of the states of chats.
use home_bot.Common.{Bool, List, [], ◌∷◌, ℕ, Result}
use home_bot.Domain.Strings.{match_str}
use home_bot.Common.Int.{ℤ}
use home_bot.Common.Text.{Text, codes}

pub data ChatDomainError : Type 0 where
  empty_message message_too_long invalid_author invalid_status : ChatDomainError
  invalid_participant_role invalid_group_bot_status : ChatDomainError
  invalid_activity_status invalid_approval_status : ChatDomainError

pub record DirectChat : Type 0 where
  pub id : ℕ
  pub owner_id : ℕ
  pub bot_id : ℕ
  pub title : Text
  pub unread_count : ℕ
  pub running : Bool
  pub queued_count : ℕ
  pub last_sequence : ℕ
  pub created_at_ms : ℤ
  pub updated_at_ms : ℤ

pub data MessageAuthor : Type 0 where
  user bot system : MessageAuthor

unfoldable pub message_author_as_str : MessageAuthor → Text
message_author_as_str user = codes "user"
message_author_as_str bot = codes "bot"
message_author_as_str system = codes "system"

abbrev pub message_author_arms : List (Text × MessageAuthor)
message_author_arms = (codes "user", user) ∷ (codes "bot", bot) ∷ (codes "system", system) ∷ []

unfoldable pub message_author_from_str : Text → Result ChatDomainError MessageAuthor
unfolding match_str
message_author_from_str = match_str message_author_arms invalid_author

pub data MessageStatus : Type 0 where
  queued streaming completed failed cancelled : MessageStatus

unfoldable pub message_status_as_str : MessageStatus → Text
message_status_as_str queued = codes "queued"
message_status_as_str streaming = codes "streaming"
message_status_as_str completed = codes "completed"
message_status_as_str failed = codes "failed"
message_status_as_str cancelled = codes "cancelled"

abbrev pub message_status_arms : List (Text × MessageStatus)
message_status_arms =
    (codes "queued", queued)
    ∷ (codes "streaming", streaming)
    ∷ (codes "completed", completed)
    ∷ (codes "failed", failed)
    ∷ (codes "cancelled", cancelled)
    ∷ []

unfoldable pub message_status_from_str : Text → Result ChatDomainError MessageStatus
unfolding match_str
message_status_from_str = match_str message_status_arms invalid_status

pub data QueuedPromptKind : Type 0 where
  follow_up steering : QueuedPromptKind

unfoldable pub queued_prompt_kind_as_str : QueuedPromptKind → Text
queued_prompt_kind_as_str follow_up = codes "follow_up"
queued_prompt_kind_as_str steering = codes "steering"

pub data GroupParticipantRole : Type 0 where
  owner member : GroupParticipantRole

unfoldable pub participant_role_as_str : GroupParticipantRole → Text
participant_role_as_str owner = codes "owner"
participant_role_as_str member = codes "member"

abbrev pub participant_role_arms : List (Text × GroupParticipantRole)
participant_role_arms = (codes "owner", owner) ∷ (codes "member", member) ∷ []

unfoldable pub participant_role_from_str : Text → Result ChatDomainError GroupParticipantRole
unfolding match_str
participant_role_from_str = match_str participant_role_arms invalid_participant_role

pub data GroupBotStatus : Type 0 where
  idle running waiting completed failed stopped : GroupBotStatus

unfoldable pub group_bot_status_as_str : GroupBotStatus → Text
group_bot_status_as_str idle = codes "idle"
group_bot_status_as_str running = codes "running"
group_bot_status_as_str waiting = codes "waiting"
group_bot_status_as_str completed = codes "completed"
group_bot_status_as_str failed = codes "failed"
group_bot_status_as_str stopped = codes "stopped"

abbrev pub group_bot_status_arms : List (Text × GroupBotStatus)
group_bot_status_arms =
    (codes "idle", idle)
    ∷ (codes "running", running)
    ∷ (codes "waiting", waiting)
    ∷ (codes "completed", completed)
    ∷ (codes "failed", failed)
    ∷ (codes "stopped", stopped)
    ∷ []

unfoldable pub group_bot_status_from_str : Text → Result ChatDomainError GroupBotStatus
unfolding match_str
group_bot_status_from_str = match_str group_bot_status_arms invalid_group_bot_status

pub data ActivityStatus : Type 0 where
  pending running succeeded failed cancelled : ActivityStatus

unfoldable pub activity_status_as_str : ActivityStatus → Text
activity_status_as_str pending = codes "pending"
activity_status_as_str running = codes "running"
activity_status_as_str succeeded = codes "succeeded"
activity_status_as_str failed = codes "failed"
activity_status_as_str cancelled = codes "cancelled"

abbrev pub activity_status_arms : List (Text × ActivityStatus)
activity_status_arms =
    (codes "pending", pending)
    ∷ (codes "running", running)
    ∷ (codes "succeeded", succeeded)
    ∷ (codes "failed", failed)
    ∷ (codes "cancelled", cancelled)
    ∷ []

unfoldable pub activity_status_from_str : Text → Result ChatDomainError ActivityStatus
unfolding match_str
activity_status_from_str = match_str activity_status_arms invalid_activity_status

pub data ApprovalStatus : Type 0 where
  pending allowed denied expired : ApprovalStatus

unfoldable pub approval_status_as_str : ApprovalStatus → Text
approval_status_as_str pending = codes "pending"
approval_status_as_str allowed = codes "allowed"
approval_status_as_str denied = codes "denied"
approval_status_as_str expired = codes "expired"

abbrev pub approval_status_arms : List (Text × ApprovalStatus)
approval_status_arms =
    (codes "pending", pending)
    ∷ (codes "allowed", allowed)
    ∷ (codes "denied", denied)
    ∷ (codes "expired", expired)
    ∷ []

unfoldable pub approval_status_from_str : Text → Result ChatDomainError ApprovalStatus
unfolding match_str
approval_status_from_str = match_str approval_status_arms invalid_approval_status
