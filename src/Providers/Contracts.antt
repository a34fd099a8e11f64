-- ===== src/Providers/Contracts.antt =====
-- crates/homebot-providers/src/contracts.rs. `serde_json::Value` is the parameter `Json`; a
-- receiver of events is no part of a run.
use home_bot.Common.{
  ℕ, Bool, false, ◌&&◌, ◌||◌, not, Option, some, List, ◌==◌, ltb, leb, if◌then◌else◌, all, any,
  Result, ok, err,
}
use home_bot.Common.Text.{Text, byte_len}

-- `ProviderAdapterId`: the text of its private field.
abbrev pub ProviderAdapterId : Type 0
ProviderAdapterId = Text

pub data ProviderContractError : Type 0 where
  invalid_adapter_id : ProviderContractError

-- A byte of a slug; no byte of a code point beyond ASCII is one.
abbrev is_slug_byte : ℕ → Bool
is_slug_byte b = (leb b'a' b && leb b b'z') || (leb b'0' b && leb b b'9') || (b == b'-')

unfoldable pub new_adapter_id : Text → Result ProviderContractError ProviderAdapterId
new_adapter_id value =
    if byte_len value == 0 || ltb 64 (byte_len value) || not (all is_slug_byte value)
    then err invalid_adapter_id
    else ok value

pub data ProviderAvailability : Type 0 where
  available authentication_required not_installed degraded unavailable : ProviderAvailability

pub record ProviderHealth : Type 0 where
  pub availability : ProviderAvailability
  pub message : Text
  pub checked_at_unix_ms : ℕ

pub data ProviderCapability : Type 0 where
  conversation_resume streaming activities approvals cancellation : ProviderCapability
  usage compaction plan_mode attachments dynamic_tools : ProviderCapability

abbrev capability_index : ProviderCapability → ℕ
capability_index conversation_resume = 0
capability_index streaming = 1
capability_index activities = 2
capability_index approvals = 3
capability_index cancellation = 4
capability_index usage = 5
capability_index compaction = 6
capability_index plan_mode = 7
capability_index attachments = 8
capability_index dynamic_tools = 9

-- The set is the list of its members.
pub record ProviderCapabilities : Type 0 where
  pub supported : List ProviderCapability

unfoldable pub supports : ProviderCapabilities → ProviderCapability → Bool
supports c capability = any (λ d. capability_index d == capability_index capability) c.supported

pub record ProviderDescriptor : Type 0 where
  pub adapter_id : ProviderAdapterId
  pub display_name : Text
  pub executable : Option Text
  pub capabilities : ProviderCapabilities

pub record ProviderModel : Type 0 where
  pub id : Text
  pub display_name : Text
  pub context_window_tokens : Option ℕ
  pub supports_reasoning : Bool

pub data ExecutionMode : Type 0 where
  normal plan : ExecutionMode

pub record ProviderAttachment : Type 0 where
  pub attachment_id : ℕ
  pub media_type : Text
  pub size_bytes : ℕ

pub record ProviderTool (Json : Type 0) : Type 0 where
  pub name : Text
  pub description : Text
  pub input_schema : Json

pub record ProviderToolResult : Type 0 where
  pub success : Bool
  pub content : Text

pub record StartRequest (Json : Type 0) : Type 0 where
  pub operation_id : ℕ
  pub bot_id : ℕ
  pub chat_id : ℕ
  pub prompt : Text
  pub model : Option Text
  pub working_directory : Option Text
  pub mode : ExecutionMode
  pub attachments : List ProviderAttachment
  pub tools : List (ProviderTool Json)

pub record ResumeRequest (Json : Type 0) : Type 0 where
  pub operation_id : ℕ
  pub conversation_id : Text
  pub prompt : Text
  pub model : Option Text
  pub working_directory : Option Text
  pub mode : ExecutionMode
  pub attachments : List ProviderAttachment
  pub tools : List (ProviderTool Json)

pub record CompactRequest : Type 0 where
  pub conversation_id : Text
  pub target_tokens : Option ℕ

pub data ApprovalDecision : Type 0 where
  allow_once allow_for_session deny cancel : ApprovalDecision

pub data ProviderErrorCode : Type 0 where
  not_installed authentication_required unavailable invalid_request : ProviderErrorCode
  conversation_unavailable protocol_violation process_crashed timed_out : ProviderErrorCode
  cancelled internal : ProviderErrorCode

pub record ProviderError : Type 0 where
  pub code : ProviderErrorCode
  pub message : Text
  pub retryable : Bool
  pub diagnostic_id : Option ℕ

-- `ProviderError::internal`, with the identifier that it draws.
unfoldable pub internal_error : Text → ℕ → ProviderError
internal_error message diagnostic_id = record {
  code = internal;
  message = message;
  retryable = false;
  diagnostic_id = some diagnostic_id;
}

pub record ProviderRun : Type 0 where
  pub operation_id : ℕ

-- The trait `ProviderAdapter`: what the methods of an adapter return when they are called. The number
-- that each method takes first is the moment of the call: an adapter may answer the same call
-- differently at another moment.
pub record ProviderAdapter (Json : Type 0) : Type 0 where
  pub id : ProviderAdapterId
  pub discover : ℕ → Result ProviderError ProviderDescriptor
  pub health : ℕ → ProviderHealth
  pub models : ℕ → Result ProviderError (List ProviderModel)
  pub start : ℕ → StartRequest Json → Result ProviderError ProviderRun
  pub resume : ℕ → ResumeRequest Json → Result ProviderError ProviderRun
  pub cancel : (moment operation_id : ℕ) → Result ProviderError (Unit {0})
  pub resolve_approval :
      (moment approval_id : ℕ) → ApprovalDecision → Result ProviderError (Unit {0})
  pub resolve_tool_call : ℕ → Text → ProviderToolResult → Result ProviderError (Unit {0})
  pub compact : ℕ → CompactRequest → Result ProviderError (Unit {0})
  pub recover : ℕ → Result ProviderError (List ProviderRun)
