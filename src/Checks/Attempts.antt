-- ===== src/Checks/Attempts.antt =====
-- Attempts and their settlement, at concrete inputs.
use webex_generic_account_bo.Base.{
  ◌++◌, from_secs, ◌≡◌, ◌≤◌, refl, true, Option, none, [], ◌∷◌, Duration, Result, ok, err, is_some,
}
use webex_generic_account_bo.Text.{Text, text}
use webex_generic_account_bo.Config.{attempt_lease}
use webex_generic_account_bo.Webex.{
  HttpError, display_call_error, classify_webex_failure, classify_webex_api_error,
  is_permanent_status, webex_call_is_not_found, retry_after_error,
}
use webex_generic_account_bo.Bot.{
  App, AttemptLease, AttemptStart, started, processed, process_attempt, process_event,
  get_event_message_with_not_found_retry, on_first_fetch, on_hydrated, handle_get_message_failure,
  on_get_failure, finish, postpone, mark_processed, defer_attempt, unavailable,
}
use webex_generic_account_bo.Bot.Attempts.{
  attempt_settles_once, event_runs_codex_at_most_once, event_writes_into_no_read_only_source,
  successful_attempt_is_marked, failed_attempt_is_retried,
}
use webex_generic_account_bo.Bot.Settling.{settlements, runs, WritesAllowed}
use webex_generic_account_bo.Checks.Samples.{app, app_with, event, not_found, busy}

abbrev gone_app : App
gone_app = app_with (err not_found) (ok none) (ok [])

abbrev busy_app : App
busy_app = app_with (err busy) (ok none) (ok [])

attempt_settles_once_example :
    (d : Option Duration) × (settlements (process_attempt app (text "m") 7 []).1 ≡ (7, d) ∷ [])
attempt_settles_once_example = attempt_settles_once app (text "m") 7 []

event_runs_codex_at_most_once_example : runs (process_event app event []).1 ≤ 1
event_runs_codex_at_most_once_example = event_runs_codex_at_most_once app event []

event_writes_into_no_read_only_source_example :
    WritesAllowed app.config (process_event app event []).1
event_writes_into_no_read_only_source_example =
    event_writes_into_no_read_only_source app event [] tt

successful_attempt_is_marked_example :
    settlements (process_attempt gone_app (text "m") 7 []).1 ≡ (7, none) ∷ []
unfolding process_attempt get_event_message_with_not_found_retry on_first_fetch on_hydrated
    handle_get_message_failure on_get_failure finish mark_processed classify_webex_failure
    classify_webex_api_error is_permanent_status webex_call_is_not_found
successful_attempt_is_marked_example = successful_attempt_is_marked gone_app (text "m") 7 [] refl

abbrev busy_error : HttpError
busy_error =
    unavailable
      (text "failed to hydrate message " ++ (text "m" ++ (text ": " ++ display_call_error busy)))
      (from_secs 9000)

failed_attempt_is_retried_example :
    (busy_error.status ≡ 503) × (is_some busy_error.retry_after ≡ true)
unfolding process_attempt get_event_message_with_not_found_retry on_first_fetch on_hydrated
    handle_get_message_failure on_get_failure postpone defer_attempt unavailable
    classify_webex_failure classify_webex_api_error is_permanent_status webex_call_is_not_found
    retry_after_error attempt_lease
failed_attempt_is_retried_example =
    failed_attempt_is_retried busy_app (text "m") 7 [] busy_error refl

abbrev refusal : Result Text AttemptStart
refusal = ok processed

-- The store has processed the message already.
abbrev processed_app : App
processed_app = record app { store_begin = λ h id d. refusal }

not_started : (a : AttemptLease) → ¬ (refusal ≡ ok (started a))
not_started a p = cc
