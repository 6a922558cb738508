-- ===== src/Bot/Actions.antt =====
-- `BotAction` (src/main.rs).
use webex_generic_account_bo.Base.{ℕ, Bool, Option, none, some, if◌then◌else◌}
use webex_generic_account_bo.Text.{Text, text}
use webex_generic_account_bo.Policy.{
  TriggerDecision, matched, room_disabled, sender_not_allowed, missing_self_person_id,
  not_mentioned, prefix_not_matched,
}

pub record BotAction : Type 0 where
  pub action : Text
  pub reason : Option Text
  pub message_id : Option Text
  pub room_id : Option Text
  pub reply_id : Option Text
  pub reply_chars : Option ℕ

unfoldable pub queued : Text → Bool → BotAction
queued message_id existing = record {
  action = text "queued";
  reason = if existing then some (text "already_queued") else none;
  message_id = some message_id;
  room_id = none;
  reply_id = none;
  reply_chars = none;
}

unfoldable pub ignored : Text → Option Text → Option Text → BotAction
ignored reason message_id room_id = record {
  action = text "ignored";
  reason = some reason;
  message_id = message_id;
  room_id = room_id;
  reply_id = none;
  reply_chars = none;
}

unfoldable pub replied : Text → Text → Option Text → ℕ → BotAction
replied message_id room_id reply_id reply_chars = record {
  action = text "replied";
  reason = none;
  message_id = some message_id;
  room_id = some room_id;
  reply_id = reply_id;
  reply_chars = some reply_chars;
}

unfoldable pub trigger_reason : TriggerDecision → Text
trigger_reason matched = text "matched"
trigger_reason room_disabled = text "room_disabled"
trigger_reason sender_not_allowed = text "sender_not_allowed"
trigger_reason missing_self_person_id = text "missing_self_person_id"
trigger_reason not_mentioned = text "not_mentioned"
trigger_reason prefix_not_matched = text "prefix_not_matched"
