-- ===== src/Bot/Process.antt =====
-- The path of an event through the bot (`process_event` of src/main.rs).
use webex_generic_account_bo.Base.{
  Bool, ◌&&◌, ◌||◌, not, Option, none, some, ◌++◌, Result, ok, err, from_secs, ◌==◌, if◌then◌else◌,
  is_some, is_some_and, is_empty,
}
use webex_generic_account_bo.Text.{Text, text, text_eq, is_some_text}
use webex_generic_account_bo.Config.{
  policy_for_room, followup_policies_for_event_room, event_hydration_not_found_retry_secs,
}
use webex_generic_account_bo.ConfigCommands.{ConfigCommandsConfig, is_config_command_namespace}
use webex_generic_account_bo.Webex.{
  Message, WebexCallError, webex_call_is_not_found, SidecarEvent, EventData, payload, unreadable,
  bad_request,
}
use webex_generic_account_bo.Bot.Monad.{
  AttemptLease, AttemptStart, started, processed, leased, fetched_event, slept, App, M, ◌>>=◌, ◌>>◌,
  done, fail, call,
}
use webex_generic_account_bo.Bot.Actions.{BotAction, ignored}
use webex_generic_account_bo.Bot.Failures.{
  unavailable, begin_attempt, finish, handle_get_message_failure,
}
use webex_generic_account_bo.Bot.Commands.{config_command_body, process_config_command}
use webex_generic_account_bo.Bot.Policies.{ignore_in, process_policies}

module _ (app : App) where
  open app use {config}

  -- The first answer; a message that is not there yet is fetched once more.
  unfoldable pub on_first_fetch :
      Text → Result WebexCallError Message → M (Result WebexCallError Message)
  on_first_fetch message_id (ok m) = done (ok m)
  on_first_fetch message_id (err e) =
      if webex_call_is_not_found e
      then (do
        call (slept (from_secs event_hydration_not_found_retry_secs)) (λ h. tt)
        call (fetched_event message_id) (λ h. app.webex_event_message h message_id))
      else done (err e)

  unfoldable pub get_event_message_with_not_found_retry : Text → M (Result WebexCallError Message)
  get_event_message_with_not_found_retry message_id = do
    first ← call (fetched_event message_id) (λ h. app.webex_event_message h message_id)
    on_first_fetch message_id first

  unfoldable pub is_config_command_room : Option ConfigCommandsConfig → Text → Bool
  is_config_command_room k room_id = is_some_and (λ c. text_eq c.room_id room_id) k

  unfoldable pub is_config_command : Message → Bool
  is_config_command m = is_some_and is_config_command_namespace (config_command_body m)

  -- The admin room's commands, or the policies of another room.
  unfoldable pub process_routed :
      AttemptLease → Message → Text → Text → Option ConfigCommandsConfig → M BotAction
  process_routed a m message_id room_id (some k) =
      if text_eq k.room_id room_id
      then process_config_command app a m message_id room_id k
      else process_policies app a m message_id room_id
  process_routed a m message_id room_id none = process_policies app a m message_id room_id

  -- A `/config` command in a room that is not the admin room.
  unfoldable pub is_misplaced_command : Message → Text → Bool
  unfolding is_config_command_room is_config_command
  is_misplaced_command m room_id =
      is_some config.config_commands
      && is_config_command m
      && not (is_config_command_room config.config_commands room_id)

  -- A room that no policy is for.
  unfoldable pub has_no_policy : Text → Bool
  unfolding is_config_command_room
  has_no_policy room_id =
      not (is_some (policy_for_room config room_id))
      && is_empty (followup_policies_for_event_room config room_id)
      && not (is_config_command_room config.config_commands room_id)

  -- A message of the bot itself.
  unfoldable pub is_self_message : Message → Bool
  is_self_message m = is_some_and (λ s. is_some_text s m.person_id) app.self_person_id

  -- The checks before any policy is applied.
  unfoldable pub process_in_room : AttemptLease → Message → Text → Text → M BotAction
  unfolding ignore_in is_misplaced_command has_no_policy is_self_message
  process_in_room a m message_id room_id =
      if is_misplaced_command m room_id
      then ignore_in app a (text "config_command_wrong_room") message_id room_id
      else if has_no_policy room_id
      then ignore_in app a (text "no_room_policy") message_id room_id
      else if is_self_message m
      then ignore_in app a (text "self_message") message_id room_id
      else process_routed a m message_id room_id config.config_commands

  -- A message with the event's ID, by its room.
  unfoldable pub process_by_room : AttemptLease → Text → Message → Option Text → M BotAction
  unfolding finish
  process_by_room a message_id m none =
      finish app a (ignored (text "missing_room_id") (some message_id) none)
  process_by_room a message_id m (some room_id) = process_in_room a m message_id room_id

  -- A hydrated message.
  unfoldable pub process_message : AttemptLease → Text → Message → M BotAction
  unfolding finish
  process_message a message_id m =
      if not (is_some_text message_id m.id)
      then finish app a (ignored (text "hydrated_message_id_mismatch") (some message_id) none)
      else process_by_room a message_id m m.room_id

  -- The hydrated message, or the failure to fetch it.
  unfoldable pub on_hydrated : Text → AttemptLease → Result WebexCallError Message → M BotAction
  on_hydrated message_id a (ok m) = process_message a message_id m
  on_hydrated message_id a (err e) = handle_get_message_failure app a message_id e

  -- An attempt that was started.
  unfoldable pub process_attempt : Text → AttemptLease → M BotAction
  process_attempt message_id a = do
    outcome ← get_event_message_with_not_found_retry message_id
    on_hydrated message_id a outcome

  unfoldable pub process_started : Text → AttemptStart → M BotAction
  unfolding unavailable
  process_started message_id (started a) = process_attempt message_id a
  process_started message_id processed =
      done (ignored (text "duplicate_message") (some message_id) none)
  process_started message_id (leased retry_after) = fail (
      unavailable (text "message " ++ (message_id ++ text " already has an active attempt lease"))
        retry_after)

  -- The message's ID in the event.
  unfoldable pub process_id : Option Text → M BotAction
  unfolding begin_attempt
  process_id none = done (ignored (text "missing_message_id") none none)
  process_id (some message_id) = do
    start ← begin_attempt app message_id
    process_started message_id start

  unfoldable pub process_payload : Message → M BotAction
  process_payload m = process_id m.id

  unfoldable pub process_contents : EventData → M BotAction
  process_contents (payload m) = process_payload m
  process_contents (unreadable e) = fail (bad_request (text "invalid message payload: " ++ e))

  unfoldable pub process_event : SidecarEvent → M BotAction
  process_event event =
      if not (event.version == 1)
      then done (ignored (text "unsupported_event_version") none none)
      else if not (text_eq event.resource (text "messages"))
          || not (text_eq event.event (text "created"))
      then done (ignored (text "unsupported_event") (some event.resource) none)
      else process_contents event.contents
