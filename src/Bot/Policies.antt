-- ===== src/Bot/Policies.antt =====
-- The policies of a room: follow-ups, then direct messages (`process_event` of src/main.rs).
use webex_generic_account_bo.Base.{
  Bool, true, false, ◌&&◌, Option, none, some, List, [], ◌∷◌, Result, ok, err, if◌then◌else◌,
  unwrap_or, is_some,
}
use webex_generic_account_bo.Text.{Text, text}
use webex_generic_account_bo.Config.{
  RoomPolicy, policy_for_room, followup_policies_for_event_room, room_is_read_only_source,
  direct_reply_marker_search_max_pages, followup_reply_marker_search_max_pages,
}
use webex_generic_account_bo.Policy.{
  TriggerDecision, matched, MessageContext, from_message, should_trigger, render_prompt,
}
use webex_generic_account_bo.Thread.{render_followup_prompt}
use webex_generic_account_bo.Webex.{Message, WebexCallError}
use webex_generic_account_bo.Bot.Monad.{AttemptLease, App, M, ◌>>=◌, done}
use webex_generic_account_bo.Bot.Actions.{BotAction, ignored, trigger_reason}
use webex_generic_account_bo.Bot.Failures.{
  ReplyThread, ReplyThreadSetup, ready, finished, finish, handle_reconciliation_failure,
}
use webex_generic_account_bo.Bot.Threads.{prepare_reply_thread}
use webex_generic_account_bo.Bot.Codex.{run_codex_reply}
use webex_generic_account_bo.Bot.Followup.{FollowupRun, resolve_followup}

abbrev pub is_matched : TriggerDecision → Bool
is_matched matched = true
is_matched _ = false

module _ (app : App) where
  open app use {config}

  -- A message that is ignored, in its room.
  unfoldable pub ignore_in : AttemptLease → Text → Text → Text → M BotAction
  unfolding finish
  ignore_in a reason message_id room_id =
      finish app a (ignored reason (some message_id) (some room_id))

  -- The reply to a resolved follow-up, from the context of the current message on.
  unfoldable pub followup_reply :
      AttemptLease → RoomPolicy → Text → Text → FollowupRun → Option MessageContext → M BotAction
  unfolding ignore_in
  followup_reply a p message_id room_id run none =
      ignore_in a (text "incomplete_message_context") message_id room_id
  followup_reply a p message_id room_id run (some context) =
      run_codex_reply app a p
        (record {
          message_id = message_id;
          reply_format = unwrap_or p.reply_format p.followup.reply_format;
          reply_marker_search_max_pages =
              some (followup_reply_marker_search_max_pages p.followup.max_thread_messages);
          reply_thread = run.reply_thread;
          prompt =
              render_followup_prompt p.followup.prompt_template context run.source_context
                run.thread_context;
        })
        (some run.source_context)

  -- A resolved follow-up is answered by Codex.
  unfoldable pub answer_followup :
      AttemptLease → RoomPolicy → Message → Text → Text → FollowupRun → M BotAction
  answer_followup a p m message_id room_id run =
      followup_reply a p message_id room_id run (from_message m)

  -- What resolving one follow-up policy gave.
  unfoldable pub on_followup :
      AttemptLease
      → RoomPolicy
      → Message
      → Text
      → Text
      → M BotAction
      → Result WebexCallError (Option FollowupRun)
      → M BotAction
  on_followup a p m message_id room_id rest (ok (some run)) =
      answer_followup a p m message_id room_id run
  on_followup a p m message_id room_id rest (ok none) = rest
  on_followup a p m message_id room_id rest (err e) =
      handle_reconciliation_failure app a message_id e

  -- The loop over the follow-up policies: the first that resolves answers.
  unfoldable pub process_followups :
      AttemptLease → Message → Text → Text → M BotAction → List RoomPolicy → M BotAction
  process_followups a m message_id room_id otherwise [] = otherwise
  process_followups a m message_id room_id otherwise (p ∷ ps) =
      let rest = process_followups a m message_id room_id otherwise ps in
      (do
        found ← resolve_followup app p m message_id room_id
        on_followup a p m message_id room_id rest found)

  -- The reply to a direct message, from its context on.
  unfoldable pub direct_reply :
      AttemptLease → RoomPolicy → Text → Text → ReplyThread → Option MessageContext → M BotAction
  unfolding ignore_in
  direct_reply a p message_id room_id reply_thread none =
      ignore_in a (text "incomplete_message_context") message_id room_id
  direct_reply a p message_id room_id reply_thread (some context) =
      run_codex_reply app a p
        (record {
          message_id = message_id;
          reply_format = p.reply_format;
          reply_marker_search_max_pages = some direct_reply_marker_search_max_pages;
          reply_thread = reply_thread;
          prompt = render_prompt p.prompt_template context;
        })
        (some context)

  -- A direct message that triggers the bot, with its thread prepared.
  unfoldable pub answer_direct :
      AttemptLease → RoomPolicy → Message → Text → Text → ReplyThreadSetup → M BotAction
  answer_direct a p m message_id room_id (finished action) = done action
  answer_direct a p m message_id room_id (ready reply_thread) =
      direct_reply a p message_id room_id reply_thread (from_message m)

  -- The direct policy of the room against the message.
  unfoldable pub process_direct : AttemptLease → RoomPolicy → Message → Text → Text → M BotAction
  unfolding ignore_in
  process_direct a p m message_id room_id =
      let trigger = should_trigger p m app.self_person_id in
      if is_matched trigger
      then (do
        setup ← prepare_reply_thread app p m message_id room_id (unwrap_or message_id m.parent_id) a
        answer_direct a p m message_id room_id setup)
      else ignore_in a (trigger_reason trigger) message_id room_id

  -- The policy for direct messages, if the room has one.
  unfoldable pub process_direct_policy :
      AttemptLease → Message → Text → Text → Option RoomPolicy → M BotAction
  unfolding ignore_in
  process_direct_policy a m message_id room_id none =
      ignore_in a (text "not_followup") message_id room_id
  process_direct_policy a m message_id room_id (some p) = process_direct a p m message_id room_id

  unfoldable pub process_unless_followup :
      AttemptLease → Message → Text → Text → Option RoomPolicy → M BotAction
  unfolding ignore_in
  process_unless_followup a m message_id room_id direct =
      if is_some m.parent_id && room_is_read_only_source config room_id
      then ignore_in a (text "not_followup") message_id room_id
      else process_direct_policy a m message_id room_id direct

  -- The policies of a room: follow-ups first, then direct messages.
  unfoldable pub process_policies : AttemptLease → Message → Text → Text → M BotAction
  process_policies a m message_id room_id =
      process_followups a m message_id room_id
        (process_unless_followup a m message_id room_id (policy_for_room config room_id))
        (followup_policies_for_event_room config room_id)
