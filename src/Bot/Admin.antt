-- ===== src/Bot/Admin.antt =====
-- What the admin room and its `/config` commands can do (`process_config_command` of src/main.rs).
use webex_generic_account_bo.Base.{
  ◌≡◌, refl, sym, subst, ◌⊎◌, inl, inr, Bool, true, false, not, ◌&&◌, Option, none, some, List, [],
  ◌∷◌, Result, ok, err, arith, if◌then◌else◌, is_ok, is_some, is_some_and, unwrap_or,
}
use webex_generic_account_bo.Text.{Text, is_some_text, text_eq_refl}
use webex_generic_account_bo.ConfigCommands.{
  ConfigCommand, status, pull, reload, sync, ConfigCommandsConfig, parse_config_command,
  command_allowed, sender_allowed,
}
use webex_generic_account_bo.Reply.{reply_markdown_message}
use webex_generic_account_bo.Webex.{HttpError, Message, WebexCallError, state_error}
use webex_generic_account_bo.Bot.Monad.{App, AttemptLease, History, M, enqueued}
use webex_generic_account_bo.Bot.Actions.{BotAction}
use webex_generic_account_bo.Bot.Failures.{
  finish, postpone, unavailable, find_existing_message_by_marker, handle_reconciliation_failure,
  handle_create_message_failure,
}
use webex_generic_account_bo.Bot.Commands.{
  send_fixed_reply, unless_replied, process_status, process_pull, run_command, run_parsed,
  process_config_command, on_fixed_found, on_receipt, config_command_body,
}
use webex_generic_account_bo.Bot.Policies.{ignore_in}
use webex_generic_account_bo.Bot.Process.{
  process_routed, process_in_room, process_by_room, process_message, is_misplaced_command,
  has_no_policy, is_self_message,
}
use webex_generic_account_bo.Bot.Settling.{runs, is_retryable}
use webex_generic_account_bo.Bot.Silence.{posts, IsSilent}

-- The message IDs with which the action worker was asked for a pull, newest first.
abbrev pub enqueues : History → List Text
enqueues [] = []
enqueues (enqueued id ∷ h) = id ∷ enqueues h
enqueues (_ ∷ h) = enqueues h

-- A handler that did not run Codex, asked for no pull and posted nothing.
abbrev pub IsInert : {A : Type 0} → History → Result HttpError A × History → Type 0
IsInert h out = IsSilent h out × (enqueues out.1 ≡ enqueues h)

-- A handler that did not run Codex.
abbrev RunsNothing : {A : Type 0} → History → Result HttpError A × History → Type 0
RunsNothing h out = runs out.1 ≡ runs h

finish-IsInert :
    (app : App) {A : Type 0} (a : AttemptLease) (x : A) (h : History) → IsInert h (finish app a x h)
unfolding finish state_error
finish-IsInert app a x h = ground arith

if-RunsNothing :
    {A : Type 0} (b : Bool) (x y : M A) (h : History)
    → RunsNothing h (x h)
    → RunsNothing h (y h)
    → RunsNothing h ((if b then x else y) h)
if-RunsNothing true x y h p q = p
if-RunsNothing false x y h p q = q

send_fixed_reply-RunsNothing :
    (app : App) (a : AttemptLease) (id room parent answer : Text) (h : History)
    → RunsNothing h (send_fixed_reply app a id room parent answer h)
unfolding send_fixed_reply handle_create_message_failure reply_markdown_message state_error
send_fixed_reply-RunsNothing app a id room parent answer h = ground arith

on_fixed_found-RunsNothing :
    (app : App) (a : AttemptLease) (id room : Text) (otherwise : M BotAction)
    (found : Result WebexCallError (Option Message)) (h : History)
    → RunsNothing h (otherwise h)
    → RunsNothing h (on_fixed_found app a id room otherwise found h)
unfolding on_fixed_found handle_reconciliation_failure finish state_error
on_fixed_found-RunsNothing app a id room otherwise found h q = ground arith

unless_replied-RunsNothing :
    (app : App) (a : AttemptLease) (id room parent : Text) (otherwise : M BotAction) (h : History)
    → ((h' : History) → RunsNothing h' (otherwise h'))
    → RunsNothing h (unless_replied app a id room parent otherwise h)
unfolding unless_replied find_existing_message_by_marker
unless_replied-RunsNothing app a id room parent otherwise h q =
    on_fixed_found-RunsNothing app a id room otherwise _ _ (q _)

on_receipt-RunsNothing :
    (app : App) (a : AttemptLease) (id room : Text) (receipt : Result Text Text) (h : History)
    → RunsNothing h (on_receipt app a id room receipt h)
unfolding on_receipt postpone state_error
on_receipt-RunsNothing app a id room (ok action_id) h =
    unless_replied-RunsNothing app a id room id _ h
      (send_fixed_reply-RunsNothing app a id room id _)
on_receipt-RunsNothing app a id room (err e) h = ground arith

run_command-RunsNothing :
    (app : App) (a : AttemptLease) (id room : Text) (command : ConfigCommand) (h : History)
    → RunsNothing h (run_command app a id room command h)
unfolding run_command process_status process_pull
run_command-RunsNothing app a id room status h =
    unless_replied-RunsNothing app a id room id _ h
      λ h'. send_fixed_reply-RunsNothing app a id room id _ _
run_command-RunsNothing app a id room pull h = on_receipt-RunsNothing app a id room _ _
run_command-RunsNothing app a id room reload h = (finish-IsInert app a _ h).0.0
run_command-RunsNothing app a id room sync h = (finish-IsInert app a _ h).0.0

run_parsed-RunsNothing :
    (app : App) (a : AttemptLease) (id room : Text) (k : ConfigCommandsConfig)
    (c : Option ConfigCommand) (h : History)
    → RunsNothing h (run_parsed app a id room k c h)
unfolding run_parsed
run_parsed-RunsNothing app a id room k none h = (finish-IsInert app a _ h).0.0
run_parsed-RunsNothing app a id room k (some c) h =
    if-RunsNothing (command_allowed k c) _ _ h (run_command-RunsNothing app a id room c h)
      (finish-IsInert app a _ h).0.0

command_room-RunsNothing :
    (app : App) (a : AttemptLease) (m : Message) (id room : Text) (k : ConfigCommandsConfig)
    (h : History)
    → RunsNothing h (process_config_command app a m id room k h)
unfolding process_config_command
command_room-RunsNothing app a m id room k h =
    if-RunsNothing (is_some m.parent_id) _ _ h (finish-IsInert app a _ h).0.0 (
      if-RunsNothing (not (sender_allowed k m.person_id m.person_email)) _ _ h
        (finish-IsInert app a _ h).0.0 (run_parsed-RunsNothing app a id room k _ h))

admin_room_routed :
    (app : App) (a : AttemptLease) (m : Message) (id : Text) (k : ConfigCommandsConfig)
    (h : History)
    → RunsNothing h (process_routed app a m id k.room_id (some k) h)
unfolding process_routed
admin_room_routed app a m id k h =
    rw (text_eq_refl k.room_id) (command_room-RunsNothing app a m id k.room_id k h)

admin_room_checked :
    (app : App) (a : AttemptLease) (m : Message) (id : Text) (k : ConfigCommandsConfig)
    (h : History)
    → app.config.config_commands ≡ some k
    → RunsNothing h (process_in_room app a m id k.room_id h)
unfolding process_in_room ignore_in
admin_room_checked app a m id k h p =
    if-RunsNothing (is_misplaced_command app m k.room_id) _ _ h (finish-IsInert app a _ h).0.0 (
      if-RunsNothing (has_no_policy app k.room_id) _ _ h (finish-IsInert app a _ h).0.0 (
        if-RunsNothing (is_self_message app m) _ _ h (finish-IsInert app a _ h).0.0 (
          subst (λ o. RunsNothing h (process_routed app a m id k.room_id o h)) (sym p)
            (admin_room_routed app a m id k h))))

-- In a bot with `/config` commands, no message of the admin room reaches Codex, whatever it says,
-- whoever sends it, and whatever policies there are.
pub admin_room_never_runs_codex :
    (app : App) (a : AttemptLease) (m : Message) (id : Text) (k : ConfigCommandsConfig)
    (h : History)
    → app.config.config_commands ≡ some k
    → m.room_id ≡ some k.room_id
    → runs (process_message app a id m h).1 ≡ runs h
unfolding process_message process_by_room
admin_room_never_runs_codex app a m id k h p q =
    if-RunsNothing (not (is_some_text id m.id)) _ _ h (finish-IsInert app a _ h).0.0 (
      subst (λ o. RunsNothing h (process_by_room app a id m o h)) (sym q)
        (admin_room_checked app a m id k h p))

-- The message is a command that the table allows, from a sender whom the table allows, at the top
-- level of the room.
unfoldable pub is_authorized_command : ConfigCommandsConfig → Message → Bool
is_authorized_command k m =
    not (is_some m.parent_id)
    && (sender_allowed k m.person_id m.person_email
        && is_some_and (command_allowed k)
            (parse_config_command (unwrap_or [] (config_command_body m))))

unless-IsInert :
    {A : Type 0} (b : Bool) (x y : M A) (h : History)
    → b ≡ false
    → IsInert h (y h)
    → IsInert h ((if b then x else y) h)
unless-IsInert true x y h p q = absurd (ground arith)
unless-IsInert false x y h p q = q

run_parsed-IsInert :
    (app : App) (a : AttemptLease) (id room : Text) (k : ConfigCommandsConfig)
    (c : Option ConfigCommand) (h : History)
    → is_some_and (command_allowed k) c ≡ false
    → IsInert h (run_parsed app a id room k c h)
unfolding run_parsed
run_parsed-IsInert app a id room k none h q = finish-IsInert app a _ h
run_parsed-IsInert app a id room k (some c) h q =
    unless-IsInert (command_allowed k c) _ _ h q (finish-IsInert app a _ h)

guarded-IsInert :
    {A : Type 0} (parented allowed parsed : Bool) (x y z : M A) (h : History)
    → (not parented && (allowed && parsed)) ≡ false
    → IsInert h (x h)
    → IsInert h (y h)
    → (parsed ≡ false → IsInert h (z h))
    → IsInert h ((if parented then x else if not allowed then y else z) h)
guarded-IsInert true allowed parsed x y z h p q r s = q
guarded-IsInert false true parsed x y z h p q r s = s p
guarded-IsInert false false parsed x y z h p q r s = r

-- In the admin room, a message that is not an authorised command (it stands in a thread, its sender is
-- not in the table, it is no command, or a command that the table does not allow) runs nothing, posts
-- nothing and asks for no pull.
pub unauthorized_command-IsInert :
    (app : App) (a : AttemptLease) (m : Message) (id room : Text) (k : ConfigCommandsConfig)
    (h : History)
    → is_authorized_command k m ≡ false
    → IsInert h (process_config_command app a m id room k h)
unfolding process_config_command is_authorized_command
unauthorized_command-IsInert app a m id room k h p =
    guarded-IsInert (is_some m.parent_id) (sender_allowed k m.person_id m.person_email)
      (is_some_and (command_allowed k)
        (parse_config_command (unwrap_or [] (config_command_body m))))
      _ _ _ h p (finish-IsInert app a _ h) (finish-IsInert app a _ h)
      (run_parsed-IsInert app a id room k _ h)

-- A handler that asked for no further pull.
abbrev QueuesNothing : {A : Type 0} → History → Result HttpError A × History → Type 0
QueuesNothing h out = enqueues out.1 ≡ enqueues h

send_fixed_reply-QueuesNothing :
    (app : App) (a : AttemptLease) (id room parent answer : Text) (h : History)
    → QueuesNothing h (send_fixed_reply app a id room parent answer h)
unfolding send_fixed_reply handle_create_message_failure reply_markdown_message state_error
send_fixed_reply-QueuesNothing app a id room parent answer h = ground arith

on_fixed_found-QueuesNothing :
    (app : App) (a : AttemptLease) (id room : Text) (otherwise : M BotAction)
    (found : Result WebexCallError (Option Message)) (h : History)
    → QueuesNothing h (otherwise h)
    → QueuesNothing h (on_fixed_found app a id room otherwise found h)
unfolding on_fixed_found handle_reconciliation_failure finish state_error
on_fixed_found-QueuesNothing app a id room otherwise found h q = ground arith

on_receipt-QueuesNothing :
    (app : App) (a : AttemptLease) (id room : Text) (receipt : Result Text Text) (h : History)
    → QueuesNothing h (on_receipt app a id room receipt h)
unfolding on_receipt postpone state_error unless_replied find_existing_message_by_marker
on_receipt-QueuesNothing app a id room (ok action_id) h =
    on_fixed_found-QueuesNothing app a id room _ _ _
      (send_fixed_reply-QueuesNothing app a id room id _ _)
on_receipt-QueuesNothing app a id room (err e) h = ground arith

refused_or_accepted :
    (app : App) (a : AttemptLease) (id room : Text) (receipt : Result Text Text) (h : History)
    → (is_ok receipt ≡ true)
      ⊎ ((posts (on_receipt app a id room receipt h).1 ≡ posts h)
          × (is_ok (on_receipt app a id room receipt h).0 ≡ false)
          × (is_retryable (on_receipt app a id room receipt h).0 ≡ true))
unfolding on_receipt postpone unavailable state_error
refused_or_accepted app a id room (ok action_id) h = inl refl
refused_or_accepted app a id room (err e) h = inr (ground arith, ground arith, ground arith)

-- One run of the pull command asks the action worker for a pull exactly once, with the ID of the
-- message that asks for it. If the worker refuses, nothing is posted, and the run ends in a failure
-- with status 503 and a delay after which to retry.
pub pull_asks_worker_once :
    (app : App) (a : AttemptLease) (id room : Text) (h : History)
    → (enqueues (process_pull app a id room h).1 ≡ id ∷ enqueues h)
      × ((is_ok (app.config_enqueue h id) ≡ true)
          ⊎ ((posts (process_pull app a id room h).1 ≡ posts h)
              × (is_ok (process_pull app a id room h).0 ≡ false)
              × (is_retryable (process_pull app a id room h).0 ≡ true)))
unfolding process_pull
pull_asks_worker_once app a id room h = (
  on_receipt-QueuesNothing app a id room _ _,
  refused_or_accepted app a id room (app.config_enqueue h id) (enqueued id ∷ h),
)
