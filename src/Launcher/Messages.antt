-- ===== src/Launcher/Messages.antt =====
-- Requests, responses and their validation (src/launcher_protocol.rs).
use webex_generic_account_bo.Base.{ℕ, Bool, Option}
use webex_generic_account_bo.Text.{Text}

pub data ProtocolError : Type 0 where
  frame_too_short : ProtocolError
  empty_payload : ProtocolError
  frame_length_mismatch : ProtocolError
  request_too_large : ProtocolError
  response_too_large : ProtocolError
  invalid_request_json : ProtocolError
  invalid_response_json : ProtocolError
  unsupported_version : ProtocolError
  invalid_run_id : ProtocolError
  invalid_message_id : ProtocolError
  invalid_prompt : ProtocolError
  invalid_workspace : ProtocolError
  invalid_model : ProtocolError
  invalid_reasoning_effort : ProtocolError
  invalid_timeout : ProtocolError
  invalid_output_limit : ProtocolError
  invalid_output : ProtocolError
  invalid_error_message : ProtocolError

pub data ReasoningEffort : Type 0 where
  minimal : ReasoningEffort
  low : ReasoningEffort
  medium : ReasoningEffort
  high : ReasoningEffort
  xhigh : ReasoningEffort
  unknown : ReasoningEffort

-- The workspace is its path in UTF-8, if it has one.
pub record ExecuteRequest : Type 0 where
  pub run_id : Text
  pub message_id : Text
  pub prompt : Text
  pub workspace : Option Text
  pub model : Option Text
  pub reasoning_effort : Option ReasoningEffort
  pub timeout_seconds : ℕ
  pub output_char_limit : ℕ
  pub skip_git_repo_check : Bool

pub data LauncherRequestKind : Type 0 where
  preflight : LauncherRequestKind
  execute : ExecuteRequest → LauncherRequestKind

pub record LauncherRequest : Type 0 where
  pub version : ℕ
  pub request : LauncherRequestKind

pub record CompletedResponse : Type 0 where
  pub run_id : Text
  pub output : Text
  pub truncated : Bool

pub data RejectionCode : Type 0 where
  unsupported_version : RejectionCode
  malformed_request : RejectionCode
  request_too_large : RejectionCode
  invalid_run_id : RejectionCode
  invalid_message_id : RejectionCode
  invalid_prompt : RejectionCode
  invalid_workspace : RejectionCode
  invalid_model : RejectionCode
  invalid_reasoning_effort : RejectionCode
  invalid_timeout : RejectionCode
  invalid_output_limit : RejectionCode
  execution_unavailable : RejectionCode
  execution_timed_out : RejectionCode
  execution_failed : RejectionCode
  internal_error : RejectionCode

pub record RejectedResponse : Type 0 where
  pub run_id : Option Text
  pub code : RejectionCode
  pub message : Text

pub data LauncherResponseKind : Type 0 where
  ready : Bool → LauncherResponseKind
  completed : CompletedResponse → LauncherResponseKind
  rejected : RejectedResponse → LauncherResponseKind

pub record LauncherResponse : Type 0 where
  pub version : ℕ
  pub response : LauncherResponseKind
