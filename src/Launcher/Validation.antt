-- ===== src/Launcher/Validation.antt =====
-- The validation of the messages to and from the launcher (src/launcher_protocol.rs).
use webex_generic_account_bo.Base.{
  ℕ, ◌*◌, Bool, false, not, ◌&&◌, ◌||◌, Option, none, some, List, [], ◌∷◌, length, any, all,
  is_empty, Result, ok, err, ensure, ◌>>◌, leb, ltb, ◌==◌,
}
use webex_generic_account_bo.Text.{Text, text, text_eq, byte_len, as_bytes, is_blank, strip_prefix}
use webex_generic_account_bo.Config.{split_slash}
use webex_generic_account_bo.Scheduler.{is_control}
use webex_generic_account_bo.Launcher.Messages.{
  ProtocolError, ReasoningEffort, ExecuteRequest, LauncherRequestKind, LauncherRequest,
  CompletedResponse, RejectedResponse, LauncherResponseKind, LauncherResponse, unknown, preflight,
  execute, ready, completed, rejected,
}

abbrev pub Checked : Type 0
Checked = Result ProtocolError (Unit {0})

abbrev pub output_char_limit_max : ℕ
output_char_limit_max = 100000

abbrev pub output_max_bytes : ℕ
output_max_bytes = 4 * output_char_limit_max

abbrev pub error_message_max_chars : ℕ
error_message_max_chars = 1024

abbrev pub error_message_max_bytes : ℕ
error_message_max_bytes = 4 * error_message_max_chars

unfoldable pub is_ascii_alphanumeric : ℕ → Bool
is_ascii_alphanumeric b =
    (leb b'0' b && leb b b'9') || (leb b'A' b && leb b b'Z') || (leb b'a' b && leb b b'z')

unfoldable pub validate_version : ℕ → Checked
validate_version version = ensure (version == 1) ProtocolError.unsupported_version

unfoldable pub is_run_id_byte : ℕ → Bool
unfolding is_ascii_alphanumeric
is_run_id_byte b = is_ascii_alphanumeric b || b == b'-' || b == b'_'

unfoldable pub is_run_id : List ℕ → Bool
unfolding is_run_id_byte
is_run_id [] = false
is_run_id (first ∷ bytes) =
    leb (length (first ∷ bytes)) 64 && is_ascii_alphanumeric first && all is_run_id_byte bytes

unfoldable pub validate_run_id : Text → Checked
unfolding is_run_id
validate_run_id run_id = ensure (is_run_id (as_bytes run_id)) ProtocolError.invalid_run_id

-- `u8::is_ascii_control`.
unfoldable pub is_ascii_control : ℕ → Bool
is_ascii_control b = ltb b 0x20 || b == 0x7f

unfoldable pub validate_request_message_id : Text → Checked
unfolding is_ascii_control
validate_request_message_id id =
    ensure
      (not (is_empty id)
        && leb (byte_len id) 256
        && all (λ b. ltb b 0x80) id
        && not (any is_ascii_control (as_bytes id)))
      ProtocolError.invalid_message_id

unfoldable pub is_prompt_char : ℕ → Bool
unfolding is_control
is_prompt_char c = not (is_control c) || c == b'\n' || c == b'\r' || c == b'\t'

unfoldable pub validate_prompt : Text → Checked
unfolding is_prompt_char
validate_prompt prompt =
    ensure
      (not (is_blank prompt)
        && leb (byte_len prompt) (256 * 1024)
        && leb (length prompt) (64 * 1024)
        && all is_prompt_char prompt)
      ProtocolError.invalid_prompt

unfoldable pub is_path_component : Text → Bool
is_path_component c = not (is_empty c) && not (text_eq c (text ".")) && not (text_eq c (text ".."))

unfoldable pub is_relative_path : Option Text → Bool
unfolding is_path_component
is_relative_path none = false
is_relative_path (some relative) =
    not (is_empty relative) && all is_path_component (split_slash [] relative)

unfoldable pub validate_workspace : Option Text → Checked
unfolding is_relative_path
validate_workspace none = err ProtocolError.invalid_workspace
validate_workspace (some path) =
    ensure (leb (byte_len path) (4 * 1024) && not (any is_control path))
      ProtocolError.invalid_workspace
    >> ensure (is_relative_path (strip_prefix (text "/") path)) ProtocolError.invalid_workspace

unfoldable pub is_model_byte : ℕ → Bool
unfolding is_run_id_byte
is_model_byte b = is_run_id_byte b || b == b'.'

unfoldable pub validate_model : Option Text → Checked
unfolding is_model_byte
validate_model none = ok tt
validate_model (some model) =
    ensure (not (is_empty model) && leb (byte_len model) 128 && all is_model_byte (as_bytes model))
      ProtocolError.invalid_model

unfoldable pub validate_reasoning_effort : Option ReasoningEffort → Checked
validate_reasoning_effort (some unknown) = err ProtocolError.invalid_reasoning_effort
validate_reasoning_effort _ = ok tt

unfoldable pub validate_timeout_seconds : ℕ → Checked
validate_timeout_seconds t = ensure (leb 1 t && leb t (60 * 60)) ProtocolError.invalid_timeout

unfoldable pub validate_output_char_limit : ℕ → Checked
validate_output_char_limit n =
    ensure (leb 1 n && leb n output_char_limit_max) ProtocolError.invalid_output_limit

unfoldable pub validate_execute : ExecuteRequest → Checked
unfolding validate_run_id validate_request_message_id validate_prompt validate_workspace
    validate_model validate_reasoning_effort validate_timeout_seconds validate_output_char_limit
validate_execute r =
    validate_run_id r.run_id
    >> validate_request_message_id r.message_id
    >> validate_prompt r.prompt
    >> validate_workspace r.workspace
    >> validate_model r.model
    >> validate_reasoning_effort r.reasoning_effort
    >> validate_timeout_seconds r.timeout_seconds
    >> validate_output_char_limit r.output_char_limit

unfoldable pub validate_request_kind : LauncherRequestKind → Checked
unfolding validate_execute
validate_request_kind preflight = ok tt
validate_request_kind (execute r) = validate_execute r

unfoldable pub validate_request : LauncherRequest → Checked
unfolding validate_version validate_request_kind
validate_request r = validate_version r.version >> validate_request_kind r.request

unfoldable pub validate_completed : CompletedResponse → Checked
unfolding validate_run_id
validate_completed r =
    validate_run_id r.run_id
    >> ensure
        (leb (length r.output) output_char_limit_max && leb (byte_len r.output) output_max_bytes)
        ProtocolError.invalid_output

unfoldable pub validate_optional_run_id : Option Text → Checked
unfolding validate_run_id
validate_optional_run_id none = ok tt
validate_optional_run_id (some run_id) = validate_run_id run_id

unfoldable pub is_error_message : Text → Bool
unfolding is_control
is_error_message m =
    not (is_empty m)
    && leb (length m) error_message_max_chars
    && leb (byte_len m) error_message_max_bytes
    && not (any is_control m)

unfoldable pub validate_rejected : RejectedResponse → Checked
unfolding validate_optional_run_id is_error_message
validate_rejected r =
    validate_optional_run_id r.run_id
    >> ensure (is_error_message r.message) ProtocolError.invalid_error_message

unfoldable pub validate_response_kind : LauncherResponseKind → Checked
unfolding validate_completed validate_rejected
validate_response_kind (ready _) = ok tt
validate_response_kind (completed r) = validate_completed r
validate_response_kind (rejected r) = validate_rejected r

unfoldable pub validate_response : LauncherResponse → Checked
unfolding validate_version validate_response_kind
validate_response r = validate_version r.version >> validate_response_kind r.response
