-- ===== src/Bot/Settling/Routing.antt =====
-- The path of a started attempt, as to the settlement (`process_event` of src/main.rs).
use webex_generic_account_bo.Base.{
  not, ◌&&◌, Option, none, some, List, [], ◌∷◌, Result, ok, err, arith, is_some,
}
use webex_generic_account_bo.Text.{Text, text_eq, is_some_text}
use webex_generic_account_bo.Config.{RoomPolicy, room_is_read_only_source}
use webex_generic_account_bo.ConfigCommands.{ConfigCommandsConfig}
use webex_generic_account_bo.Policy.{MessageContext, should_trigger}
use webex_generic_account_bo.Webex.{HttpError, Message, WebexCallError}
use webex_generic_account_bo.Bot.Monad.{App, AttemptLease, History, M, next}
use webex_generic_account_bo.Bot.Actions.{BotAction}
use webex_generic_account_bo.Bot.Failures.{ReplyThread, ReplyThreadSetup, ready, finished}
use webex_generic_account_bo.Bot.Followup.{FollowupRun}
use webex_generic_account_bo.Bot.Policies.{
  followup_reply, direct_reply, process_direct_policy, process_policies, answer_followup,
  on_followup, process_followups, answer_direct, process_direct, process_unless_followup,
  is_matched,
}
use webex_generic_account_bo.Bot.Process.{
  on_first_fetch, process_by_room, is_misplaced_command, has_no_policy, is_self_message,
  get_event_message_with_not_found_retry, process_routed, process_in_room, process_message,
  on_hydrated, process_attempt,
}
use webex_generic_account_bo.Bot.Settling.Facts.{Settled, Quiet-Settled}
use webex_generic_account_bo.Bot.Settling.Failing.{
  Prepared, finish-Settled, reconciliation_failure-Settled, get_failure-Settled,
}
use webex_generic_account_bo.Bot.Settling.Answering.{
  prepare_reply_thread-Prepared, run_codex_reply-Settled, process_config_command-Settled,
  if-Settled,
}
use webex_generic_account_bo.Bot.Settling.Asking.{Asks, resolve_followup-Asks}

module _ (app : App) where
  Asks-Settled :
      {A : Type 0} (a : AttemptLease) (h : History) (out : Result HttpError A × History)
      (f : A → M BotAction)
      → Asks app h out
      → ((x : A) (h' : History) → Settled app.config a h' (f x h'))
      → Settled app.config a h (next out.0 out.1 f)
  Asks-Settled a h (err e, h') f q k = absurd (ground (arith, q.answered))
  Asks-Settled a h (ok x, h') f q k = Quiet-Settled q.quiet (k x h')

  followup_reply-Settled :
      (a : AttemptLease) (p : RoomPolicy) (id room : Text) (run : FollowupRun)
      (c : Option MessageContext) (h : History)
      → Settled app.config a h (followup_reply app a p id room run c h)
  unfolding followup_reply
  followup_reply-Settled a p id room run none h = finish-Settled app a _ h
  followup_reply-Settled a p id room run (some c) h = run_codex_reply-Settled app a p _ _ h

  on_followup-Settled :
      (a : AttemptLease) (p : RoomPolicy) (m : Message) (id room : Text) (rest : M BotAction)
      (found : Result WebexCallError (Option FollowupRun)) (h : History)
      → Settled app.config a h (rest h)
      → Settled app.config a h (on_followup app a p m id room rest found h)
  unfolding on_followup answer_followup
  on_followup-Settled a p m id room rest (ok (some run)) h s =
      followup_reply-Settled a p id room run _ h
  on_followup-Settled a p m id room rest (ok none) h s = s
  on_followup-Settled a p m id room rest (err e) h s = reconciliation_failure-Settled app a id e h

  process_followups-Settled :
      (a : AttemptLease) (m : Message) (id room : Text) (otherwise : M BotAction)
      (ps : List RoomPolicy)
      → ((h : History) → Settled app.config a h (otherwise h))
      → (h : History) → Settled app.config a h (process_followups app a m id room otherwise ps h)
  unfolding process_followups
  process_followups-Settled a m id room otherwise [] s h = s h
  process_followups-Settled a m id room otherwise (p ∷ ps) s h =
      Asks-Settled a h _ _ (resolve_followup-Asks app p m id room h) λ found h'.
        on_followup-Settled a p m id room _ found h'
          (process_followups-Settled a m id room otherwise ps s h')

  direct_reply-Settled :
      (a : AttemptLease) (p : RoomPolicy) (id room : Text) (t : ReplyThread)
      (c : Option MessageContext) (h : History)
      → Settled app.config a h (direct_reply app a p id room t c h)
  unfolding direct_reply
  direct_reply-Settled a p id room t none h = finish-Settled app a _ h
  direct_reply-Settled a p id room t (some c) h = run_codex_reply-Settled app a p _ _ h

  Prepared-Settled :
      (a : AttemptLease) (p : RoomPolicy) (m : Message) (id room : Text) (h : History)
      (out : Result HttpError ReplyThreadSetup × History)
      → Prepared app.config a h out
      → Settled app.config a h (next out.0 out.1 (answer_direct app a p m id room))
  unfolding answer_direct
  Prepared-Settled a p m id room h (ok (ready t), h') q =
      Quiet-Settled q (direct_reply-Settled a p id room t _ h')
  Prepared-Settled a p m id room h (ok (finished x), h') q = q
  Prepared-Settled a p m id room h (err e, h') q = q

  process_direct-Settled :
      (a : AttemptLease) (p : RoomPolicy) (m : Message) (id room : Text) (h : History)
      → Settled app.config a h (process_direct app a p m id room h)
  unfolding process_direct
  process_direct-Settled a p m id room h =
      if-Settled app a (is_matched (should_trigger p m app.self_person_id)) _ _ h
        (Prepared-Settled a p m id room h _ (prepare_reply_thread-Prepared app p m id room _ a h))
        (finish-Settled app a _ h)

  process_direct_policy-Settled :
      (a : AttemptLease) (m : Message) (id room : Text) (o : Option RoomPolicy) (h : History)
      → Settled app.config a h (process_direct_policy app a m id room o h)
  unfolding process_direct_policy
  process_direct_policy-Settled a m id room none h = finish-Settled app a _ h
  process_direct_policy-Settled a m id room (some p) h = process_direct-Settled a p m id room h

  process_policies-Settled :
      (a : AttemptLease) (m : Message) (id room : Text) (h : History)
      → Settled app.config a h (process_policies app a m id room h)
  unfolding process_policies process_unless_followup
  process_policies-Settled a m id room h =
      process_followups-Settled a m id room _ _
        (λ h'.
          if-Settled app a (is_some m.parent_id && room_is_read_only_source app.config room) _ _ h'
            (finish-Settled app a _ h') (process_direct_policy-Settled a m id room _ h'))
        h

  process_routed-Settled :
      (a : AttemptLease) (m : Message) (id room : Text) (k : Option ConfigCommandsConfig)
      (h : History)
      → Settled app.config a h (process_routed app a m id room k h)
  unfolding process_routed
  process_routed-Settled a m id room none h = process_policies-Settled a m id room h
  process_routed-Settled a m id room (some k) h =
      if-Settled app a (text_eq k.room_id room) _ _ h
        (process_config_command-Settled app a m id room k h)
        (process_policies-Settled a m id room h)

  process_in_room-Settled :
      (a : AttemptLease) (m : Message) (id room : Text) (h : History)
      → Settled app.config a h (process_in_room app a m id room h)
  unfolding process_in_room
  process_in_room-Settled a m id room h =
      if-Settled app a (is_misplaced_command app m room) _ _ h (finish-Settled app a _ h) (
        if-Settled app a (has_no_policy app room) _ _ h (finish-Settled app a _ h) (
          if-Settled app a (is_self_message app m) _ _ h (finish-Settled app a _ h)
            (process_routed-Settled a m id room _ h)))

  process_by_room-Settled :
      (a : AttemptLease) (id : Text) (m : Message) (o : Option Text) (h : History)
      → Settled app.config a h (process_by_room app a id m o h)
  unfolding process_by_room
  process_by_room-Settled a id m none h = finish-Settled app a _ h
  process_by_room-Settled a id m (some room) h = process_in_room-Settled a m id room h

  pub on_hydrated-Settled :
      (a : AttemptLease) (id : Text) (outcome : Result WebexCallError Message) (h : History)
      → Settled app.config a h (on_hydrated app id a outcome h)
  unfolding on_hydrated process_message
  on_hydrated-Settled a id (ok m) h =
      if-Settled app a (not (is_some_text id m.id)) _ _ h (finish-Settled app a _ h)
        (process_by_room-Settled a id m m.room_id h)
  on_hydrated-Settled a id (err e) h = get_failure-Settled app a id e h

  hydration-Asks :
      (id : Text) (h : History) → Asks app h (get_event_message_with_not_found_retry app id h)
  unfolding get_event_message_with_not_found_retry on_first_fetch
  hydration-Asks id h = ground arith

  pub attempt-Settled :
      (id : Text) (a : AttemptLease) (h : History)
      → Settled app.config a h (process_attempt app id a h)
  unfolding process_attempt
  attempt-Settled id a h = Asks-Settled a h _ _ (hydration-Asks id h) (on_hydrated-Settled a id)
