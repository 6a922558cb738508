-- ===== src/Bot/Silence.antt =====
-- When the bot stays silent (`process_event` of src/main.rs).
use webex_generic_account_bo.Base.{
  ◌≡◌, ◌≢◌, refl, Bool, true, false, ◌||◌, ◌&&◌, Option, none, some, List, [], ◌∷◌, Result, ok, err,
  arith, if◌then◌else◌, is_some, is_some_and, any, subst, sym,
}
use webex_generic_account_bo.Text.{Text, text_eq}
use webex_generic_account_bo.Config.{
  RoomPolicy, policy_for_room, followup_policies_for_event_room, room_is_read_only_source,
}
use webex_generic_account_bo.Policy.{MessageContext, should_trigger}
use webex_generic_account_bo.Markers.{reply_marker}
use webex_generic_account_bo.ConfigCommands.{ConfigCommandsConfig}
use webex_generic_account_bo.Webex.{HttpError, Message, CreateMessage, WebexCallError, state_error}
use webex_generic_account_bo.Bot.Monad.{App, AttemptLease, History, M, next, created}
use webex_generic_account_bo.Bot.Actions.{BotAction}
use webex_generic_account_bo.Bot.Failures.{
  finish, find_existing_message_by_marker, handle_reconciliation_failure,
}
use webex_generic_account_bo.Bot.Codex.{CodexReplyRequest, run_codex_reply, on_reply_found}
use webex_generic_account_bo.Bot.Policies.{
  on_followup, process_policies, process_followups, process_unless_followup, process_direct_policy,
  process_direct, is_matched, ignore_in,
}
use webex_generic_account_bo.Bot.Process.{
  process_in_room, process_routed, is_config_command_room, is_self_message, has_no_policy,
  is_misplaced_command,
}
use webex_generic_account_bo.Bot.Followup.{followup_candidate_matches, resolve_followup}
use webex_generic_account_bo.Bot.Settling.{runs}

||-left : (a b : Bool) → (a || b) ≡ false → a ≡ false
||-left a b p = ground arith

||-right : (a b : Bool) → (a || b) ≡ false → b ≡ false
||-right a b p = ground arith

-- The messages that were posted, newest first.
abbrev pub posts : History → List CreateMessage
posts [] = []
posts (created r ∷ h) = r ∷ posts h
posts (_ ∷ h) = posts h

-- A handler that ran Codex no more and posted nothing more.
abbrev pub IsSilent : {A : Type 0} → History → Result HttpError A × History → Type 0
IsSilent h out = (runs out.1 ≡ runs h) × (posts out.1 ≡ posts h)

pub finish-IsSilent :
    (app : App) {A : Type 0} (a : AttemptLease) (x : A) (h : History)
    → IsSilent h (finish app a x h)
unfolding finish state_error
finish-IsSilent app a x h = ground arith

pub if-IsSilent :
    {A : Type 0} (b : Bool) (x y : M A) (h : History)
    → IsSilent h (x h)
    → IsSilent h (y h)
    → IsSilent h ((if b then x else y) h)
if-IsSilent true x y h p q = p
if-IsSilent false x y h p q = q

unless-IsSilent :
    {A : Type 0} (b : Bool) (x y : M A) (h : History)
    → b ≡ false
    → IsSilent h (y h)
    → IsSilent h ((if b then x else y) h)
unless-IsSilent true x y h p q = absurd (ground arith)
unless-IsSilent false x y h p q = q

process_direct-IsSilent :
    (app : App) (a : AttemptLease) (m : Message) (id room : Text) (p : RoomPolicy) (h : History)
    → is_matched (should_trigger p m app.self_person_id) ≡ false
    → IsSilent h (process_direct app a p m id room h)
unfolding process_direct ignore_in
process_direct-IsSilent app a m id room p h q =
    unless-IsSilent (is_matched (should_trigger p m app.self_person_id)) _ _ h q
      (finish-IsSilent app a _ h)

direct_policy-IsSilent :
    (app : App) (a : AttemptLease) (m : Message) (id room : Text) (o : Option RoomPolicy)
    (h : History)
    → is_some_and (λ p. is_matched (should_trigger p m app.self_person_id)) o ≡ false
    → IsSilent h (process_direct_policy app a m id room o h)
unfolding process_direct_policy ignore_in
direct_policy-IsSilent app a m id room none h q = finish-IsSilent app a _ h
direct_policy-IsSilent app a m id room (some p) h q = process_direct-IsSilent app a m id room p h q

unless_followup-IsSilent :
    (app : App) (a : AttemptLease) (m : Message) (id room : Text) (o : Option RoomPolicy)
    (h : History)
    → is_some_and (λ p. is_matched (should_trigger p m app.self_person_id)) o ≡ false
    → IsSilent h (process_unless_followup app a m id room o h)
unfolding process_unless_followup ignore_in
unless_followup-IsSilent app a m id room o h q =
    if-IsSilent (is_some m.parent_id && room_is_read_only_source app.config room) _ _ h
      (finish-IsSilent app a _ h) (direct_policy-IsSilent app a m id room o h q)

-- A policy that the message is no candidate for resolves to nothing, without a call.
not_a_candidate :
    (app : App) (m : Message) (id room : Text) (p : RoomPolicy) (h : History)
    → followup_candidate_matches p m app.self_person_id ≡ false
    → resolve_followup app p m id room h ≡ (ok (ok none), h)
unfolding resolve_followup
not_a_candidate app m id room p h q = ground arith

followups-IsSilent :
    (app : App) (a : AttemptLease) (m : Message) (id room : Text) (otherwise : M BotAction)
    (ps : List RoomPolicy) (h : History)
    → any (λ p. followup_candidate_matches p m app.self_person_id) ps ≡ false
    → IsSilent h (otherwise h)
    → IsSilent h (process_followups app a m id room otherwise ps h)
unfolding process_followups on_followup
followups-IsSilent app a m id room otherwise [] h p q = q
followups-IsSilent app a m id room otherwise (r ∷ rs) h p q =
    subst
      (λ o. IsSilent h (
        next o.0 o.1
          (on_followup app a r m id room (process_followups app a m id room otherwise rs))))
      (sym (not_a_candidate app m id room r h (||-left _ _ p)))
      (followups-IsSilent app a m id room otherwise rs h (||-right _ _ p) q)

routed-IsSilent :
    (app : App) (a : AttemptLease) (m : Message) (id room : Text) (k : Option ConfigCommandsConfig)
    (h : History)
    → is_config_command_room app k room ≡ false
    → IsSilent h (process_policies app a m id room h)
    → IsSilent h (process_routed app a m id room k h)
unfolding process_routed is_config_command_room
routed-IsSilent app a m id room none h p q = q
routed-IsSilent app a m id room (some k) h p q = unless-IsSilent (text_eq k.room_id room) _ _ h p q

-- In a room other than the admin room, a message that triggers no policy makes the bot neither run
-- Codex nor post anything: it is no candidate for any follow-up policy of the room, and the room has
-- no policy of its own or one that the message does not match (its sender is not listed, it is not
-- addressed to the bot, or the room is disabled).
pub untriggered_message-IsSilent :
    (app : App) (a : AttemptLease) (m : Message) (id room : Text) (h : History)
    → is_config_command_room app app.config.config_commands room ≡ false
    → any
        (λ p. followup_candidate_matches p m app.self_person_id)
        (followup_policies_for_event_room app.config room)
      ≡ false
    → is_some_and
        (λ p. is_matched (should_trigger p m app.self_person_id))
        (policy_for_room app.config room)
      ≡ false
    → IsSilent h (process_in_room app a m id room h)
unfolding process_in_room process_policies ignore_in
untriggered_message-IsSilent app a m id room h other_room no_followup no_direct =
    if-IsSilent (is_misplaced_command app m room) _ _ h (finish-IsSilent app a _ h) (
      if-IsSilent (has_no_policy app room) _ _ h (finish-IsSilent app a _ h) (
        if-IsSilent (is_self_message app m) _ _ h (finish-IsSilent app a _ h) (
          routed-IsSilent app a m id room _ h other_room (
            followups-IsSilent app a m id room _ _ h no_followup
              (unless_followup-IsSilent app a m id room _ h no_direct)))))

-- A message of the bot itself, in whichever room and under whichever policies, makes it neither
-- run Codex nor post anything.
pub own_message-IsSilent :
    (app : App) (a : AttemptLease) (m : Message) (id room : Text) (h : History)
    → is_self_message app m ≡ true
    → IsSilent h (process_in_room app a m id room h)
unfolding process_in_room ignore_in finish state_error
own_message-IsSilent app a m id room h own = ground arith

on_reply_found-IsSilent :
    (app : App) (a : AttemptLease) (p : RoomPolicy) (r : CodexReplyRequest)
    (context : Option MessageContext) (found : Result WebexCallError (Option Message)) (h : History)
    → found ≢ ok none
    → IsSilent h (on_reply_found app a p r context found h)
unfolding on_reply_found handle_reconciliation_failure state_error
on_reply_found-IsSilent app a p r context (ok (some reply)) h n = finish-IsSilent app a _ h
on_reply_found-IsSilent app a p r context (ok none) h n = absurd (n refl)
on_reply_found-IsSilent app a p r context (err e) h n = ground arith

-- A reply is made only where there is none: unless the search for the marker of the message succeeds
-- and finds no message, Codex does not run and nothing is posted.
pub reply_needs_empty_search :
    (app : App) (a : AttemptLease) (p : RoomPolicy) (r : CodexReplyRequest)
    (context : Option MessageContext) (h : History)
    → app.webex_search h r.reply_thread.room_id
        (some r.reply_thread.parent_id)
        (reply_marker r.message_id)
        r.reply_marker_search_max_pages
      ≢ ok none
    → IsSilent h (run_codex_reply app a p r context h)
unfolding run_codex_reply find_existing_message_by_marker
reply_needs_empty_search app a p r context h n = on_reply_found-IsSilent app a p r context _ _ n
