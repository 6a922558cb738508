-- ===== src/Bot/Commands.antt =====
-- The `/config` commands of the admin room (`process_config_command` of src/main.rs).
use webex_generic_account_bo.Base.{
  not, Option, none, some, [], ◌++◌, Result, ok, err, Duration, from_secs, if◌then◌else◌, unwrap_or,
  or, is_some,
}
use webex_generic_account_bo.Text.{Text, text, byte_len, is_blank}
use webex_generic_account_bo.Config.{direct_reply_marker_search_max_pages}
use webex_generic_account_bo.ConfigCommands.{
  ConfigCommand, status, pull, reload, sync, ConfigCommandsConfig, parse_config_command,
  sender_allowed, command_allowed,
}
use webex_generic_account_bo.Markers.{reply_marker}
use webex_generic_account_bo.Reply.{
  prepare_reply_markdown, reply_markdown_message, existing_reply_chars,
}
use webex_generic_account_bo.Webex.{Message, WebexCallError}
use webex_generic_account_bo.Bot.Monad.{
  AttemptLease, read_status, enqueued, App, M, ◌>>=◌, ◌>>◌, done, call,
}
use webex_generic_account_bo.Bot.Actions.{BotAction, ignored, replied}
use webex_generic_account_bo.Bot.Failures.{
  finish, postpone, create_message, find_existing_message_by_marker, handle_reconciliation_failure,
  handle_create_message_failure,
}
use webex_generic_account_bo.Bot.Codex.{mark_after_reply}

abbrev pub config_action_retry_after : Duration
config_action_retry_after = from_secs 5

-- A text that is there and not blank.
unfoldable pub unless_blank : Option Text → Option Text
unless_blank none = none
unless_blank (some t) = if is_blank t then none else some t

-- The first of text and Markdown that is not blank.
unfoldable pub config_command_body : Message → Option Text
unfolding unless_blank
config_command_body m = or (unless_blank m.body_text) (unless_blank m.markdown)

module _ (app : App) where
  unfoldable pub send_fixed_reply : AttemptLease → Text → Text → Text → Text → M BotAction
  unfolding create_message mark_after_reply
  send_fixed_reply a message_id room_id parent_id answer = do
    let marker = reply_marker message_id
    let body = prepare_reply_markdown answer marker
    outcome ← create_message app (reply_markdown_message room_id parent_id body)
    elim outcome [
      | ok reply ↦ (do
        mark_after_reply app a
        done (replied message_id room_id reply.id (byte_len body)))
      | err error ↦
          handle_create_message_failure app a
            (record {
              message_id = message_id;
              room_id = room_id;
              parent_id = parent_id;
              reply_marker = marker;
              marker_search_max_pages = some direct_reply_marker_search_max_pages;
              reply_chars = byte_len body;
            })
            error
    ]

  -- What the search for an earlier reply found.
  unfoldable pub on_fixed_found :
      AttemptLease
      → Text
      → Text
      → M BotAction
      → Result WebexCallError (Option Message)
      → M BotAction
  unfolding finish
  on_fixed_found a message_id room_id otherwise (ok (some reply)) =
      finish app a (replied message_id room_id reply.id (existing_reply_chars reply))
  on_fixed_found a message_id room_id otherwise (ok none) = otherwise
  on_fixed_found a message_id room_id otherwise (err error) =
      handle_reconciliation_failure app a message_id error

  -- `reconcile_fixed_reply`, and what follows where no reply is there.
  unfoldable pub unless_replied : AttemptLease → Text → Text → Text → M BotAction → M BotAction
  unfolding find_existing_message_by_marker
  unless_replied a message_id room_id parent_id otherwise = do
    found ←
        find_existing_message_by_marker app room_id (some parent_id) (reply_marker message_id)
          (some direct_reply_marker_search_max_pages)
    on_fixed_found a message_id room_id otherwise found

  unfoldable pub status_markdown : Result Text Text → Text
  status_markdown (ok snapshot) = snapshot
  status_markdown (err e) =
      text "**Config deployment status**\n\nState unavailable. Check the bot service logs."

  unfoldable pub process_status : AttemptLease → Text → Text → M BotAction
  unfolding unless_replied
  process_status a message_id room_id = unless_replied a message_id room_id message_id (do
    snapshot ← call read_status app.config_status
    send_fixed_reply a message_id room_id message_id (status_markdown snapshot))

  unfoldable pub accepted_markdown : Text → Text
  accepted_markdown action_id =
      text
        "**Configuration action accepted**\n\n- Action: `pull`\n- State: `accepted`\n- Action ID: `"
      ++ (action_id ++ text "`")

  -- The receipt of the action, or its failure.
  unfoldable pub on_receipt : AttemptLease → Text → Text → Result Text Text → M BotAction
  on_receipt a message_id room_id (ok action_id) =
      unless_replied a message_id room_id message_id
        (send_fixed_reply a message_id room_id message_id (accepted_markdown action_id))
  on_receipt a message_id room_id (err e) =
      postpone app a config_action_retry_after (text "config action worker unavailable")

  -- The action is queued before anything is replied.
  unfoldable pub process_pull : AttemptLease → Text → Text → M BotAction
  process_pull a message_id room_id = do
    receipt ← call (enqueued message_id) (λ h. app.config_enqueue h message_id)
    on_receipt a message_id room_id receipt

  unfoldable pub run_command : AttemptLease → Text → Text → ConfigCommand → M BotAction
  run_command a message_id room_id status = process_status a message_id room_id
  run_command a message_id room_id pull = process_pull a message_id room_id
  run_command a message_id room_id reload =
      finish app a
        (ignored (text "config_command_not_implemented") (some message_id) (some room_id))
  run_command a message_id room_id sync =
      finish app a
        (ignored (text "config_command_not_implemented") (some message_id) (some room_id))

  -- A parsed command, if it is in the allowlist.
  unfoldable pub run_parsed :
      AttemptLease → Text → Text → ConfigCommandsConfig → Option ConfigCommand → M BotAction
  run_parsed a message_id room_id k none =
      finish app a (ignored (text "unsupported_config_command") (some message_id) (some room_id))
  run_parsed a message_id room_id k (some command) =
      if command_allowed k command
      then run_command a message_id room_id command
      else finish app a
          (ignored (text "config_command_not_allowed") (some message_id) (some room_id))

  unfoldable pub process_config_command :
      AttemptLease → Message → Text → Text → ConfigCommandsConfig → M BotAction
  process_config_command a m message_id room_id k =
      if is_some m.parent_id
      then finish app a
          (ignored (text "config_command_must_be_top_level") (some message_id) (some room_id))
      else if not (sender_allowed k m.person_id m.person_email)
      then finish app a
          (ignored (text "config_command_sender_not_allowed") (some message_id) (some room_id))
      else run_parsed a message_id room_id k
          (parse_config_command (unwrap_or [] (config_command_body m)))
