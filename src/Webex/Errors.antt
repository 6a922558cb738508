-- ===== src/Webex/Errors.antt =====
-- Failed Webex calls and the HTTP errors that they become (src/main.rs).
use webex_generic_account_bo.Base.{
  ℕ, Bool, false, ◌||◌, Option, none, some, ◌++◌, ◌==◌, if◌then◌else◌, unwrap_or, Duration,
  from_secs,
}
use webex_generic_account_bo.Text.{Text, text}
use webex_generic_account_bo.Webex.Types.{ApiError, WebexError, api, other}

pub data WebexCallError : Type 0 where
  client : WebexError → WebexCallError
  timed_out : WebexCallError
  write_blocked : Text → WebexCallError

-- `Display`.
pub display_call_error : WebexCallError → Text
display_call_error (client (api e)) = e.display
display_call_error (client (other t)) = t
display_call_error timed_out = text "request timed out after 30 seconds"
display_call_error (write_blocked room) = text "write blocked for read-only source room " ++ room

pub data WebexFailureAction : Type 0 where
  stop : WebexFailureAction
  retry : Duration → WebexFailureAction

unfoldable pub is_permanent_status : ℕ → Bool
is_permanent_status s = s == 400 || s == 403 || s == 404 || s == 410 || s == 422

unfoldable pub classify_webex_api_error : ApiError → Duration → WebexFailureAction
classify_webex_api_error e default_retry =
    if e.status == 429
    then retry (unwrap_or default_retry e.retry_after)
    else if is_permanent_status e.status
    then stop
    else retry (unwrap_or default_retry e.retry_after)

unfoldable pub classify_webex_failure : WebexCallError → Duration → WebexFailureAction
classify_webex_failure timed_out default_retry = retry default_retry
classify_webex_failure (client (api e)) default_retry = classify_webex_api_error e default_retry
classify_webex_failure (client (other t)) default_retry = retry default_retry
classify_webex_failure (write_blocked room) default_retry = stop

unfoldable pub webex_call_is_not_found : WebexCallError → Bool
webex_call_is_not_found (client (api e)) = e.status == 404
webex_call_is_not_found _ = false

unfoldable pub classify_webex_create_failure : WebexCallError → Duration → WebexFailureAction
classify_webex_create_failure e default_retry = classify_webex_failure e default_retry

pub record HttpError : Type 0 where
  pub status : ℕ
  pub message : Text
  pub retry_after : Option Duration

unfoldable pub bad_request : Text → HttpError
bad_request message = record { status = 400; message = message; retry_after = none }

unfoldable pub retry_after_error : ℕ → Text → Duration → HttpError
retry_after_error status message retry_after = record {
  status = status;
  message = message;
  retry_after = some retry_after;
}

-- `error` is the `Display` text of the state store's error.
unfoldable pub state_error : Text → HttpError
unfolding retry_after_error
state_error error = retry_after_error 503 (text "state store error: " ++ error) (from_secs 30)

unfoldable pub message_job_error : HttpError
unfolding retry_after_error
message_job_error =
    retry_after_error 503 (text "message job persistence unavailable") (from_secs 30)
