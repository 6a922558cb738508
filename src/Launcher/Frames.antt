-- ===== src/Launcher/Frames.antt =====
-- Bounded responses, and the frames of the protocol (src/launcher_protocol.rs).
use webex_generic_account_bo.Base.{
  ℕ, ◌+◌, ◌*◌, ◌/◌, ◌%◌, ◌^◌, ◌-◌, Bool, true, false, ◌||◌, Option, none, some, List, [], ◌∷◌, ◌++◌,
  length, take, map, is_empty, Result, ok, err, ◌>>◌, leb, ltb, ◌==◌, if◌then◌else◌,
}
use webex_generic_account_bo.Text.{Text, text, trim}
use webex_generic_account_bo.Scheduler.{is_control}
use webex_generic_account_bo.Launcher.Messages.{
  ProtocolError, LauncherRequest, LauncherResponse, CompletedResponse, RejectedResponse,
  RejectionCode,
}
use webex_generic_account_bo.Launcher.Validation.{
  Checked, error_message_max_chars, validate_run_id, validate_optional_run_id,
  validate_output_char_limit, validate_request, validate_response, validate_rejected,
}

-- `Err` of a check, and otherwise what follows.
abbrev pub after_check : {A : Type 0} → Checked → Result ProtocolError A → Result ProtocolError A
after_check (ok _) r = r
after_check (err e) r = err e

-- The first characters of the output, and whether there were more.
unfoldable pub bound_output : Text → ℕ → Result ProtocolError (Text × Bool)
unfolding validate_output_char_limit
bound_output output limit =
    after_check (validate_output_char_limit limit)
      (if leb (length output) limit then ok (output, false) else ok (take limit output, true))

unfoldable pub sanitize_char : ℕ → ℕ
unfolding is_control
sanitize_char c = if is_control c then b' ' else c

unfoldable pub or_rejected : Text → Text
or_rejected message = if is_empty message then text "launcher request rejected" else message

unfoldable pub bound_error_message : Text → Text
unfolding sanitize_char or_rejected
bound_error_message message =
    or_rejected (trim (take error_message_max_chars (map sanitize_char message)))

abbrev pub completed_of :
    Text → Result ProtocolError (Text × Bool) → Result ProtocolError CompletedResponse
completed_of run_id (ok (output, truncated)) =
    ok (record { run_id = run_id; output = output; truncated = truncated })
completed_of run_id (err e) = err e

-- `CompletedResponse::bounded`.
unfoldable pub completed_bounded : Text → Text → ℕ → Result ProtocolError CompletedResponse
completed_bounded run_id output limit =
    after_check (validate_output_char_limit limit >> validate_run_id run_id)
      (completed_of run_id (bound_output output limit))

-- `RejectedResponse::bounded`.
unfoldable pub rejected_bounded :
    Option Text → RejectionCode → Text → Result ProtocolError RejectedResponse
unfolding validate_optional_run_id bound_error_message validate_rejected
rejected_bounded run_id code message =
    let response : RejectedResponse = record {
      run_id = run_id;
      code = code;
      message = bound_error_message message;
    } in
    after_check (validate_optional_run_id run_id >> validate_rejected response) (ok response)

-- serde_json at a type of messages.
pub record Json (A : Type 0) : Type 0 where
  pub to_vec : A → Option (List ℕ)
  pub from_slice : List ℕ → Option A

abbrev pub request_max_bytes : ℕ
request_max_bytes = 512 * 1024

abbrev pub response_max_bytes : ℕ
response_max_bytes = 1024 * 1024

-- `u32::to_be_bytes`, and its inverse.
unfoldable pub to_be_bytes : ℕ → List ℕ
to_be_bytes n = (n / 2 ^ 24 % 256) ∷ (n / 2 ^ 16 % 256) ∷ (n / 2 ^ 8 % 256) ∷ (n % 256) ∷ []

unfoldable pub from_be_bytes : ℕ → ℕ → ℕ → ℕ → ℕ
from_be_bytes a b c d = a * 2 ^ 24 + b * 2 ^ 16 + c * 2 ^ 8 + d

unfoldable pub frame_payload : ℕ → ProtocolError → List ℕ → Result ProtocolError (List ℕ)
unfolding to_be_bytes
frame_payload max_bytes too_large payload =
    if is_empty payload
    then err ProtocolError.empty_payload
    else if ltb max_bytes (length payload) || ltb (2 ^ 32 - 1) (length payload)
    then err too_large
    else ok (to_be_bytes (length payload) ++ payload)

abbrev pub or_invalid : {A : Type 0} → ProtocolError → Option A → Result ProtocolError A
or_invalid e none = err e
or_invalid e (some a) = ok a

abbrev pub frame_of :
    ℕ → ProtocolError → Result ProtocolError (List ℕ) → Result ProtocolError (List ℕ)
frame_of max_bytes too_large (ok payload) = frame_payload max_bytes too_large payload
frame_of max_bytes too_large (err e) = err e

unfoldable pub payload_within : ℕ → ProtocolError → ℕ → List ℕ → Result ProtocolError (List ℕ)
payload_within max_bytes too_large payload_len payload =
    if payload_len == 0
    then err ProtocolError.empty_payload
    else if ltb max_bytes payload_len
    then err too_large
    else if length payload == payload_len
    then ok payload
    else err ProtocolError.frame_length_mismatch

-- The payload of a frame: its header is its first four bytes.
unfoldable pub payload_of : ℕ → ProtocolError → List ℕ → Result ProtocolError (List ℕ)
unfolding from_be_bytes payload_within
payload_of max_bytes too_large (a ∷ b ∷ c ∷ d ∷ payload) =
    payload_within max_bytes too_large (from_be_bytes a b c d) payload
payload_of max_bytes too_large _ = err ProtocolError.frame_too_short

module _ {A : Type 0} (json : Json A) (max_bytes : ℕ) (too_large invalid_json : ProtocolError) where
  unfoldable pub encode_frame : A → Result ProtocolError (List ℕ)
  unfolding frame_payload
  encode_frame value = frame_of max_bytes too_large (or_invalid invalid_json (json.to_vec value))

  abbrev pub parsed : Result ProtocolError (List ℕ) → Result ProtocolError A
  parsed (ok payload) = or_invalid invalid_json (json.from_slice payload)
  parsed (err e) = err e

  unfoldable pub decode_frame : List ℕ → Result ProtocolError A
  unfolding payload_of
  decode_frame frame = parsed (payload_of max_bytes too_large frame)

abbrev pub checked_by :
    {A : Type 0} → (A → Checked) → Result ProtocolError A → Result ProtocolError A
checked_by check (ok a) = after_check (check a) (ok a)
checked_by check (err e) = err e

unfoldable pub encode_request_frame :
    Json LauncherRequest → LauncherRequest → Result ProtocolError (List ℕ)
unfolding validate_request encode_frame
encode_request_frame json request = after_check (validate_request request) (
    encode_frame json request_max_bytes ProtocolError.request_too_large
      ProtocolError.invalid_request_json request)

unfoldable pub decode_request_frame :
    Json LauncherRequest → List ℕ → Result ProtocolError LauncherRequest
unfolding validate_request decode_frame
decode_request_frame json frame = checked_by validate_request (
    decode_frame json request_max_bytes ProtocolError.request_too_large
      ProtocolError.invalid_request_json frame)

unfoldable pub encode_response_frame :
    Json LauncherResponse → LauncherResponse → Result ProtocolError (List ℕ)
unfolding validate_response encode_frame
encode_response_frame json response = after_check (validate_response response) (
    encode_frame json response_max_bytes ProtocolError.response_too_large
      ProtocolError.invalid_response_json response)

unfoldable pub decode_response_frame :
    Json LauncherResponse → List ℕ → Result ProtocolError LauncherResponse
unfolding validate_response decode_frame
decode_response_frame json frame = checked_by validate_response (
    decode_frame json response_max_bytes ProtocolError.response_too_large
      ProtocolError.invalid_response_json frame)
