-- ===== src/Checks/Protocol.antt =====
-- The HTTP interface and the launcher's protocol, at concrete requests.
use webex_generic_account_bo.Base.{
  ℕ, zero, suc, ◌≡◌, ◌≢◌, refl, true, false, Option, none, some, List, [], ◌∷◌, ◌++◌, length, take,
  ok, is_ok, ◌⊎◌, ltb,
}
use webex_generic_account_bo.Text.{Text, text, text_eq, as_bytes, encode_char, byte_len}
use webex_generic_account_bo.Markers.{bytes_to_hex, hex_digit}
use webex_generic_account_bo.Webex.{payload}
use webex_generic_account_bo.Scheduler.{idle, validate_message_id, admit_contents, admit_message_id}
use webex_generic_account_bo.Bot
use webex_generic_account_bo.Jobs.{
  encode_message_job_record, decode_message_job_record, message_job_path,
}
use webex_generic_account_bo.Http.{
  Site, AppState, EventRequest, into_response, unauthorized, handle_event, handle_health,
}
use webex_generic_account_bo.Http.Access.{unauthorized_request_is_refused}
use webex_generic_account_bo.Http.Durability.{IsStored, queued_event_is_stored}
use webex_generic_account_bo.Launcher.{
  Json, LauncherRequest, LauncherRequestKind, preflight, execute, RejectionCode, RejectedResponse,
  CompletedResponse, encode_request_frame, decode_request_frame, completed_bounded,
  rejected_bounded, validate_run_id, validate_output_char_limit, validate_optional_run_id,
  validate_rejected, validate_completed,
}
use webex_generic_account_bo.Launcher.RoundTrip.{decode_request_frame-encode_request_frame}
use webex_generic_account_bo.Launcher.Bounded.{
  rejected_bounded_is_valid, completed_bounded_is_valid,
}
use webex_generic_account_bo.Checks.Samples.{message_of}
use webex_generic_account_bo.Checks.Store.{
  env, empty, created, codec-IsDigest, short_digest, read_record, drop_last,
}

-- A bot with a token, to which every body is the same event.
abbrev site : Site
site = record {
  jobs = env;
  sidecar_token = some (text "secret");
  max_active_message_jobs = 2;
  now = 9;
  from_slice = λ body. ok created;
  read_message = λ v.
      payload
        (record (message_of (text "ann") (text "R") (text "hello")) { id = some (text "m1") });
}

abbrev state : AppState
state = record {
  message_jobs = record { jobs = empty; runtime_unhealthy = false };
  scheduler = idle;
}

abbrev request_with : Option Text → EventRequest
request_with authorization = record {
  authorization = authorization;
  slot_free = true;
  to_bytes = λ limit. ok (b'{' ∷ b'}' ∷ []);
}

no_header : let no_value : Option Text = none in no_value ≢ some (text "Bearer " ++ text "secret")
no_header = λ p. cc

unauthorized_request_is_refused_example :
    (handle_event site (request_with none) state ≡ (into_response unauthorized, state))
    × (handle_health site none true state ≡ (into_response unauthorized, state))
unauthorized_request_is_refused_example =
    unauthorized_request_is_refused site (text "secret") (request_with none) true state refl
      no_header

queued_event_is_stored_example :
    (id : Text) × ((Bot.queued (text "m1") false).message_id ≡ some id)
    × IsStored site id (handle_event site (request_with (some (text "Bearer secret"))) state).1
unfolding handle_event short_digest read_record drop_last text Bot.queued validate_message_id
    byte_len as_bytes encode_char text_eq encode_message_job_record message_job_path bytes_to_hex
    hex_digit decode_message_job_record admit_contents admit_message_id
queued_event_is_stored_example =
    queued_event_is_stored site codec-IsDigest (request_with (some (text "Bearer secret"))) state
      (Bot.queued (text "m1") false) refl refl

-- A writer that knows the preflight request alone.
unfoldable written : ℕ → LauncherRequestKind → Option (List ℕ)
written (suc zero) preflight = some (b'p' ∷ [])
written _ _ = none

json : Json LauncherRequest
json = record {
  to_vec = λ r. written r.version r.request;
  from_slice = λ bytes. some (record { version = 1; request = preflight });
}

reads_back :
    (version : ℕ) (request : LauncherRequestKind) (bytes : List ℕ)
    → written version request ≡ some bytes
    → ◌≡◌ {A = Option LauncherRequest}
        (some (record { version = 1; request = preflight }))
        (some (record { version = version; request = request }))
unfolding written
reads_back zero preflight bytes h = cc
reads_back zero (execute r) bytes h = cc
reads_back (suc zero) preflight bytes h = refl
reads_back (suc zero) (execute r) bytes h = cc
reads_back (suc (suc n)) preflight bytes h = cc
reads_back (suc (suc n)) (execute r) bytes h = cc

abbrev check_up : LauncherRequest
check_up = record { version = 1; request = preflight }

decode_request_frame-encode_request_frame_example :
    decode_request_frame json (0 ∷ 0 ∷ 0 ∷ 1 ∷ b'p' ∷ []) ≡ ok check_up
unfolding json encode_request_frame written
decode_request_frame-encode_request_frame_example =
    decode_request_frame-encode_request_frame json
      (λ a bytes h. reads_back a.version a.request bytes h) check_up (0 ∷ 0 ∷ 0 ∷ 1 ∷ b'p' ∷ [])
      refl

completed_bounded_is_valid_example :
    (r : CompletedResponse) × (completed_bounded (text "run-1") (text "abcdef") 4 ≡ ok r)
    × (validate_completed r ≡ ok tt)
    × (r.output ≡ take 4 (text "abcdef"))
    × (r.truncated ≡ ltb 4 (length (text "abcdef")))
unfolding validate_run_id validate_output_char_limit as_bytes encode_char text
completed_bounded_is_valid_example =
    completed_bounded_is_valid (text "run-1") (text "abcdef") 4 refl refl

-- A rejection for a run ID that is not valid.
rejected_bounded_is_valid_example :
    ((is_ok (validate_optional_run_id (some (text "-"))) ≡ true)
      × (r : RejectedResponse) × (rejected_bounded
            (some (text "-"))
            RejectionCode.internal_error
            (text "")
          ≡ ok r)
      × (validate_rejected r ≡ ok tt)
      × (r.run_id ≡ some (text "-"))
      × (r.code ≡ RejectionCode.internal_error))
    ⊎ ((is_ok (validate_optional_run_id (some (text "-"))) ≡ false)
        × (is_ok (rejected_bounded (some (text "-")) RejectionCode.internal_error (text ""))
            ≡ false))
rejected_bounded_is_valid_example =
    rejected_bounded_is_valid (some (text "-")) RejectionCode.internal_error (text "")
