-- ===== src/Bot/Settling/Answering.antt =====
-- Preparing a thread, running Codex and posting a reply, as to the settlement (src/main.rs).
use webex_generic_account_bo.Base.{
  ℕ, ◌≡◌, Bool, true, false, Option, none, some, ◌∷◌, Result, ok, err, Duration, arith,
  if◌then◌else◌, ℤ, pos, negsuc, is_ok, suc, ◌≤◌, is_some, not,
}
use webex_generic_account_bo.Text.{Text}
use webex_generic_account_bo.Config.{RoomPolicy, attempt_lease}
use webex_generic_account_bo.Markers.{source_marker}
use webex_generic_account_bo.ConfigCommands.{
  ConfigCommand, status, pull, reload, sync, ConfigCommandsConfig, command_allowed, sender_allowed,
}
use webex_generic_account_bo.Policy.{MessageContext}
use webex_generic_account_bo.Reply.{top_level_markdown_message, reply_markdown_message}
use webex_generic_account_bo.Webex.{HttpError, Message, WebexCallError, state_error}
use webex_generic_account_bo.Bot.Monad.{App, AttemptLease, History, searched, M, ◌>>=◌, next}
use webex_generic_account_bo.Bot.Actions.{BotAction}
use webex_generic_account_bo.Bot.Failures.{
  ReplyThreadSetup, ready, finished, handle_forward_create_failure, handle_create_message_failure,
}
use webex_generic_account_bo.Bot.Threads.{
  pages_of_created, forward_source, on_forward_found, with_forward, thread_for_output,
  prepare_forward, prepare_reply_thread,
}
use webex_generic_account_bo.Bot.Codex.{
  CodexReplyRequest, codex_reply_text, post_reply, run_codex_reply, on_reply_found,
}
use webex_generic_account_bo.Bot.Commands.{
  send_fixed_reply, unless_replied, process_status, process_pull, run_command, run_parsed,
  process_config_command, on_fixed_found, on_receipt,
}
use webex_generic_account_bo.Bot.Settling.Facts.{
  Settled, Quiet, Quiet-trans, Quiet-Settled, runs, settlements, WritesAllowed,
}
use webex_generic_account_bo.Bot.Settling.Failing.{
  Prepared, finish-Settled, postpone-Settled, reconciliation_failure-Settled,
  forward_reconciliation_failure-Prepared,
}

module _ (app : App) where
  forward_source-Prepared :
      (m : Message) (id source output : Text) (a : AttemptLease) (h : History)
      → Prepared app.config a h (forward_source app m id source output a h)
  unfolding forward_source handle_forward_create_failure top_level_markdown_message state_error
  forward_source-Prepared m id source output a h = ground arith

  on_forward_found-Prepared :
      (m : Message) (id source output : Text) (a : AttemptLease)
      (found : Result WebexCallError (Option Message)) (h : History)
      → Prepared app.config a h (on_forward_found app m id source output a found h)
  unfolding on_forward_found with_forward
  on_forward_found-Prepared m id source output a (ok o) h =
      ground (arith, forward_source-Prepared m id source output a h)
  on_forward_found-Prepared m id source output a (err e) h =
      forward_reconciliation_failure-Prepared app a id output e h

  pages-Quiet :
      {B : Type 0} (age : Duration) (created : Option ℤ) (h : History)
      (P : Result HttpError B × History → Type 0) (f : Option ℕ → M B)
      → ((pages : Option ℕ) (h' : History) → Quiet app.config h h' → P (f pages h'))
      → P ((do pages ← pages_of_created app age created; f pages) h)
  unfolding pages_of_created
  pages-Quiet age none h P f k = k _ h (ground arith)
  pages-Quiet age (some (negsuc n)) h P f k = k _ h (ground arith)
  pages-Quiet age (some (pos n)) h P f k = k _ _ (ground arith)

  Quiet-Prepared :
      (a : AttemptLease) {h h' : History} (out : Result HttpError ReplyThreadSetup × History)
      → Quiet app.config h h'
      → Prepared app.config a h' out
      → Prepared app.config a h out
  Quiet-Prepared a (ok (ready t), h'') q p = Quiet-trans q p
  Quiet-Prepared a (ok (finished x), h'') q p = Quiet-Settled q p
  Quiet-Prepared a (err e, h'') q p = Quiet-Settled q p

  prepare_forward-Prepared :
      (m : Message) (id source output : Text) (a : AttemptLease) (h : History)
      → Prepared app.config a h (prepare_forward app m id source output a h)
  unfolding prepare_forward
  prepare_forward-Prepared m id source output a h =
      pages-Quiet (attempt_lease app.config.server) m.created h (Prepared app.config a h) _
        λ pages h' q.
          let h'' = searched output none (source_marker id) pages ∷ h' in
          Quiet-Prepared a (on_forward_found app m id source output a _ h'')
            (Quiet-trans q (ground arith)) (on_forward_found-Prepared m id source output a _ h'')

  thread_for_output-Prepared :
      (m : Message) (id source parent : Text) (a : AttemptLease) (o : Option Text) (h : History)
      → Prepared app.config a h (thread_for_output app m id source parent a o h)
  unfolding thread_for_output
  thread_for_output-Prepared m id source parent a none h = ground arith
  thread_for_output-Prepared m id source parent a (some output) h =
      prepare_forward-Prepared m id source output a h

  pub prepare_reply_thread-Prepared :
      (p : RoomPolicy) (m : Message) (id source parent : Text) (a : AttemptLease) (h : History)
      → Prepared app.config a h (prepare_reply_thread app p m id source parent a h)
  unfolding prepare_reply_thread
  prepare_reply_thread-Prepared p m id source parent a h =
      thread_for_output-Prepared m id source parent a p.output_room_id h

  -- Codex runs at most once before the reply is posted, and nothing is settled or written.
  pub record Ran (h : History) {A : Type 0} (out : Result HttpError A × History) : Type 0 where
    pub answered : is_ok out.0 ≡ true
    pub settled : settlements out.1 ≡ settlements h
    pub one_run : runs out.1 ≤ suc (runs h)
    pub writes : WritesAllowed app.config h → WritesAllowed app.config out.1

  codex_reply_text-Ran :
      (p : RoomPolicy) (r : CodexReplyRequest) (context : Option MessageContext) (h : History)
      → Ran h (codex_reply_text app p r context h)
  unfolding codex_reply_text
  codex_reply_text-Ran p r context h = ground arith

  post_reply-Settled :
      (a : AttemptLease) (r : CodexReplyRequest) (answer : Text) (h : History)
      → Settled app.config a h (post_reply app a r answer h)
  unfolding post_reply handle_create_message_failure reply_markdown_message state_error
  post_reply-Settled a r answer h = ground arith

  post_reply-runs :
      (a : AttemptLease) (r : CodexReplyRequest) (answer : Text) (h : History)
      → runs (post_reply app a r answer h).1 ≡ runs h
  unfolding post_reply handle_create_message_failure reply_markdown_message state_error
  post_reply-runs a r answer h = ground arith

  Ran-Settled :
      (a : AttemptLease) (r : CodexReplyRequest) (h : History)
      (out : Result HttpError Text × History)
      → Ran h out
      → Settled app.config a h (next out.0 out.1 (post_reply app a r))
  Ran-Settled a r h (err e, h') q = absurd (ground (arith, q.answered))
  Ran-Settled a r h (ok answer, h') q =
      ground (arith, post_reply-Settled a r answer h', post_reply-runs a r answer h')

  on_reply_found-Settled :
      (a : AttemptLease) (p : RoomPolicy) (r : CodexReplyRequest) (context : Option MessageContext)
      (found : Result WebexCallError (Option Message)) (h : History)
      → Settled app.config a h (on_reply_found app a p r context found h)
  unfolding on_reply_found
  on_reply_found-Settled a p r context (ok (some reply)) h = finish-Settled app a _ h
  on_reply_found-Settled a p r context (ok none) h =
      Ran-Settled a r h (codex_reply_text app p r context h) (codex_reply_text-Ran p r context h)
  on_reply_found-Settled a p r context (err e) h =
      reconciliation_failure-Settled app a r.message_id e h

  pub run_codex_reply-Settled :
      (a : AttemptLease) (p : RoomPolicy) (r : CodexReplyRequest) (context : Option MessageContext)
      (h : History)
      → Settled app.config a h (run_codex_reply app a p r context h)
  unfolding run_codex_reply
  run_codex_reply-Settled a p r context h =
      Quiet-Settled {h = h} (ground arith) (on_reply_found-Settled a p r context _ _)

  send_fixed_reply-Settled :
      (a : AttemptLease) (id room parent answer : Text) (h : History)
      → Settled app.config a h (send_fixed_reply app a id room parent answer h)
  unfolding send_fixed_reply handle_create_message_failure reply_markdown_message state_error
  send_fixed_reply-Settled a id room parent answer h = ground arith

  on_fixed_found-Settled :
      (a : AttemptLease) (id room : Text) (otherwise : M BotAction)
      (found : Result WebexCallError (Option Message)) (h : History)
      → Settled app.config a h (otherwise h)
      → Settled app.config a h (on_fixed_found app a id room otherwise found h)
  unfolding on_fixed_found
  on_fixed_found-Settled a id room otherwise (ok (some reply)) h s = finish-Settled app a _ h
  on_fixed_found-Settled a id room otherwise (ok none) h s = s
  on_fixed_found-Settled a id room otherwise (err e) h s =
      reconciliation_failure-Settled app a id e h

  unless_replied-Settled :
      (a : AttemptLease) (id room parent : Text) (otherwise : M BotAction) (h : History)
      → ((h' : History) → Settled app.config a h' (otherwise h'))
      → Settled app.config a h (unless_replied app a id room parent otherwise h)
  unfolding unless_replied
  unless_replied-Settled a id room parent otherwise h s =
      Quiet-Settled {h = h} (ground arith) (on_fixed_found-Settled a id room otherwise _ _ (s _))

  on_receipt-Settled :
      (a : AttemptLease) (id room : Text) (receipt : Result Text Text) (h : History)
      → Settled app.config a h (on_receipt app a id room receipt h)
  unfolding on_receipt
  on_receipt-Settled a id room (ok action_id) h =
      unless_replied-Settled a id room id _ h (send_fixed_reply-Settled a id room id _)
  on_receipt-Settled a id room (err e) h = postpone-Settled app a _ _ h

  run_command-Settled :
      (a : AttemptLease) (id room : Text) (command : ConfigCommand) (h : History)
      → Settled app.config a h (run_command app a id room command h)
  unfolding run_command process_status process_pull
  run_command-Settled a id room status h =
      unless_replied-Settled a id room id _ h
        λ h'. Quiet-Settled {h = h'} (ground arith) (send_fixed_reply-Settled a id room id _ _)
  run_command-Settled a id room pull h =
      Quiet-Settled {h = h} (ground arith) (on_receipt-Settled a id room _ _)
  run_command-Settled a id room reload h = finish-Settled app a _ h
  run_command-Settled a id room sync h = finish-Settled app a _ h

  pub if-Settled :
      (a : AttemptLease) (b : Bool) (x y : M BotAction) (h : History)
      → Settled app.config a h (x h)
      → Settled app.config a h (y h)
      → Settled app.config a h ((if b then x else y) h)
  if-Settled a true x y h s t = s
  if-Settled a false x y h s t = t

  run_parsed-Settled :
      (a : AttemptLease) (id room : Text) (k : ConfigCommandsConfig) (c : Option ConfigCommand)
      (h : History)
      → Settled app.config a h (run_parsed app a id room k c h)
  unfolding run_parsed
  run_parsed-Settled a id room k none h = finish-Settled app a _ h
  run_parsed-Settled a id room k (some c) h =
      if-Settled a (command_allowed k c) _ _ h (run_command-Settled a id room c h)
        (finish-Settled app a _ h)

  pub process_config_command-Settled :
      (a : AttemptLease) (m : Message) (id room : Text) (k : ConfigCommandsConfig) (h : History)
      → Settled app.config a h (process_config_command app a m id room k h)
  unfolding process_config_command
  process_config_command-Settled a m id room k h =
      if-Settled a (is_some m.parent_id) _ _ h (finish-Settled app a _ h) (
        if-Settled a (not (sender_allowed k m.person_id m.person_email)) _ _ h
          (finish-Settled app a _ h) (run_parsed-Settled a id room k _ h))
