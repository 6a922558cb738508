-- ===== src/Checks/Rooms.antt =====
-- Silence, the admin room and its commands, at concrete inputs.
use webex_generic_account_bo.Base.{
  ◌≡◌, ◌≢◌, ◌⊎◌, is_ok, refl, true, false, Option, none, some, [], ◌∷◌, Result, ok, err,
}
use webex_generic_account_bo.Text.{
  text, text_eq, contains_text, trim, trim_start, trim_end, is_whitespace, is_blank,
}
use webex_generic_account_bo.Config.{followup_policies_for_event_room, policy_for_room, markdown}
use webex_generic_account_bo.Webex.{Message, WebexCallError}
use webex_generic_account_bo.Policy.{
  should_trigger, decide_trigger, is_never, mention_decision, sender_allowed, sender_listed,
}
use webex_generic_account_bo.ConfigCommands
use webex_generic_account_bo.ConfigCommands.{
  parse_config_command, command_allowed, command_in, command_eq,
}
use webex_generic_account_bo.Bot.{
  App, CodexReplyRequest, process_message, process_in_room, process_config_command, process_pull,
  run_codex_reply, is_config_command_room, followup_candidate_matches, config_command_body,
  unless_blank,
}
use webex_generic_account_bo.Bot.Settling.{runs, is_retryable}
use webex_generic_account_bo.Bot.Silence.{
  IsSilent, untriggered_message-IsSilent, reply_needs_empty_search, posts,
}
use webex_generic_account_bo.Bot.Admin.{
  enqueues, IsInert, is_authorized_command, admin_room_never_runs_codex,
  unauthorized_command-IsInert, pull_asks_worker_once,
}
use webex_generic_account_bo.Checks.Samples.{
  app, app_with, admin, ann_asks, ann_pulls, bob_pulls, own_message, source_room,
}

untriggered_message-IsSilent_example :
    IsSilent [] (process_in_room app 7 ann_asks (text "m") (text "S") [])
unfolding is_config_command_room followup_candidate_matches followup_policies_for_event_room
    policy_for_room should_trigger decide_trigger is_never mention_decision sender_allowed
    sender_listed text text_eq contains_text
untriggered_message-IsSilent_example =
    untriggered_message-IsSilent app 7 ann_asks (text "m") (text "S") [] refl refl refl

abbrev request : CodexReplyRequest
request = record {
  message_id = text "m";
  reply_format = markdown;
  reply_marker_search_max_pages = some 3;
  reply_thread = record { room_id = text "O"; parent_id = text "p" };
  prompt = text "help";
}

abbrev answered_app : App
answered_app = app_with (ok ann_asks) (ok (some own_message)) (ok [])

abbrev answer : Result WebexCallError (Option Message)
answer = ok (some own_message)

reply_found : answer ≢ ok none
reply_found p = cc

reply_needs_empty_search_example :
    IsSilent [] (run_codex_reply answered_app 7 source_room request none [])
reply_needs_empty_search_example =
    reply_needs_empty_search answered_app 7 source_room request none [] reply_found

abbrev pull_in_admin_room : Message
pull_in_admin_room = record ann_pulls { room_id = some (text "A") }

admin_room_never_runs_codex_example :
    runs (process_message app 7 (text "m") pull_in_admin_room []).1 ≡ 0
admin_room_never_runs_codex_example =
    admin_room_never_runs_codex app 7 pull_in_admin_room (text "m") admin [] refl refl

unauthorized_command-IsInert_example :
    IsInert [] (process_config_command app 7 bob_pulls (text "m") (text "A") admin [])
unfolding is_authorized_command ConfigCommands.sender_allowed text text_eq contains_text
unauthorized_command-IsInert_example =
    unauthorized_command-IsInert app 7 bob_pulls (text "m") (text "A") admin [] refl

abbrev unready_app : App
unready_app = app_with (ok ann_pulls) (ok none) (err (text "no worker"))

pull_asks_worker_once_example :
    (enqueues (process_pull unready_app 7 (text "m") (text "A") []).1 ≡ text "m" ∷ [])
    × ((is_ok (unready_app.config_enqueue [] (text "m")) ≡ true)
        ⊎ ((posts (process_pull unready_app 7 (text "m") (text "A") []).1 ≡ [])
            × (is_ok (process_pull unready_app 7 (text "m") (text "A") []).0 ≡ false)
            × (is_retryable (process_pull unready_app 7 (text "m") (text "A") []).0 ≡ true)))
pull_asks_worker_once_example = pull_asks_worker_once unready_app 7 (text "m") (text "A") []

-- The sample command is one that the table allows.
pull_is_authorized : is_authorized_command admin ann_pulls ≡ true
unfolding is_authorized_command ConfigCommands.sender_allowed text text_eq contains_text
    config_command_body unless_blank parse_config_command command_allowed command_in command_eq trim
    trim_start trim_end is_whitespace is_blank
pull_is_authorized = refl
