-- ===== src/Tools/Contracts.antt =====
-- crates/homebot-tools/src/contracts.rs, and the ticket and decision of policy.rs that its errors
-- name. A `Uuid` is the number of its 128 bits; a `&str` is its code points.
use home_bot.Common.{ℕ, Bool, Option, ◌==◌}
use home_bot.Common.Text.{Text}

pub data CapabilityClass : Type 0 where
  filesystem_read filesystem_write process_execute browser_observe browser_act : CapabilityClass
  git_read git_write git_remote plugin_read plugin_write : CapabilityClass
  external_communication external_mutation secret_use device_administration : CapabilityClass

pub record OperationContext : Type 0 where
  pub operation_id : ℕ
  pub owner_id : ℕ
  pub device_id : ℕ
  pub bot_id : ℕ
  pub chat_id : ℕ
  pub workspace_id : ℕ

pub record CapabilityRequest : Type 0 where
  pub context : OperationContext
  pub capability : CapabilityClass
  pub action : Text
  pub canonical_resource : Text
  pub summary : Text
  pub destructive : Bool

pub data ActivityKind : Type 0 where
  filesystem terminal browser approval : ActivityKind

pub data ActivityStatus : Type 0 where
  started updated completed cancelled failed denied : ActivityStatus

pub record ToolActivity : Type 0 where
  pub activity_id : ℕ
  pub operation_id : ℕ
  pub kind : ActivityKind
  pub status : ActivityStatus
  pub title : Text
  pub detail : Option Text
  pub occurred_at_unix_ms : ℕ

pub record ApprovalTicket : Type 0 where
  pub approval_id : ℕ
  pub operation_id : ℕ
  pub capability : CapabilityClass
  pub action : Text
  pub summary : Text
  pub destructive : Bool
  pub expires_at_unix_ms : ℕ

pub data ApprovalDecision : Type 0 where
  allow_once deny : ApprovalDecision

pub data ToolError : Type 0 where
  denied : ToolError
  approval_required : ApprovalTicket → ToolError
  invalid_approval path_outside_workspace symlink_rejected limit_exceeded : ToolError
  invalid_request : Text → ToolError
  unavailable operation_failed cancelled timed_out browser_protocol : ToolError

-- The derived `PartialEq`, by the place of the constructor.
abbrev pub class_index : CapabilityClass → ℕ
class_index filesystem_read = 0
class_index filesystem_write = 1
class_index process_execute = 2
class_index browser_observe = 3
class_index browser_act = 4
class_index git_read = 5
class_index git_write = 6
class_index git_remote = 7
class_index plugin_read = 8
class_index plugin_write = 9
class_index external_communication = 10
class_index external_mutation = 11
class_index secret_use = 12
class_index device_administration = 13

abbrev pub class_eq : CapabilityClass → CapabilityClass → Bool
class_eq a b = class_index a == class_index b

-- `ToolActivity::new`, with the identifier and the time that it draws.
unfoldable pub new_activity :
    ℕ → ℕ → ℕ → ActivityKind → ActivityStatus → Text → Option Text → ToolActivity
new_activity activity_id now operation_id kind status title detail = record {
  activity_id = activity_id;
  operation_id = operation_id;
  kind = kind;
  status = status;
  title = title;
  detail = detail;
  occurred_at_unix_ms = now;
}
