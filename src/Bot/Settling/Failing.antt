-- ===== src/Bot/Settling/Failing.antt =====
-- The failure handlers, as to the settlement (src/main.rs).
use webex_generic_account_bo.Base.{Result, ok, err, Duration, arith}
use webex_generic_account_bo.Text.{Text}
use webex_generic_account_bo.Config.{BotConfig}
use webex_generic_account_bo.Webex.{HttpError, CreateMessage, WebexCallError, state_error}
use webex_generic_account_bo.Bot.Monad.{App, AttemptLease, History}
use webex_generic_account_bo.Bot.Actions.{BotAction}
use webex_generic_account_bo.Bot.Failures.{
  ReplyThreadSetup, ready, finished, finish, postpone, handle_get_message_failure,
  handle_reconciliation_failure, handle_create_message_failure, ReplyCreateContext,
  ForwardCreateContext, handle_forward_reconciliation_failure, handle_forward_create_failure,
  create_message,
}
use webex_generic_account_bo.Bot.Settling.Facts.{Settled, Quiet}

-- The thread for the replies is ready, with nothing settled, or the attempt is settled.
abbrev pub Prepared :
    BotConfig → AttemptLease → History → Result HttpError ReplyThreadSetup × History → Type 0
Prepared c a h (ok (ready t), h') = Quiet c h h'
Prepared c a h (ok (finished x), h') = Settled {A = BotAction} c a h (ok x, h')
Prepared c a h (err e, h') = Settled {A = BotAction} c a h (err e, h')

module _ (app : App) where
  pub finish-Settled :
      {A : Type 0} (a : AttemptLease) (result : A) (h : History)
      → Settled app.config a h (finish app a result h)
  unfolding finish state_error
  finish-Settled a result h = ground arith

  pub postpone-Settled :
      {A : Type 0} (a : AttemptLease) (d : Duration) (t : Text) (h : History)
      → Settled app.config a h (postpone app {A = A} a d t h)
  unfolding postpone state_error
  postpone-Settled a d t h = ground arith

  pub finish-Prepared :
      (a : AttemptLease) (x : BotAction) (h : History)
      → Prepared app.config a h (finish app a (finished x) h)
  unfolding finish state_error
  finish-Prepared a x h = ground arith

  pub postpone-Prepared :
      (a : AttemptLease) (d : Duration) (t : Text) (h : History)
      → Prepared app.config a h (postpone app a d t h)
  unfolding postpone state_error
  postpone-Prepared a d t h = ground arith

  pub get_failure-Settled :
      (a : AttemptLease) (id : Text) (e : WebexCallError) (h : History)
      → Settled app.config a h (handle_get_message_failure app a id e h)
  unfolding handle_get_message_failure state_error
  get_failure-Settled a id e h = ground arith

  pub reconciliation_failure-Settled :
      (a : AttemptLease) (id : Text) (e : WebexCallError) (h : History)
      → Settled app.config a h (handle_reconciliation_failure app a id e h)
  unfolding handle_reconciliation_failure state_error
  reconciliation_failure-Settled a id e h = ground arith

  pub create_failure-Settled :
      (a : AttemptLease) (c : ReplyCreateContext) (e : WebexCallError) (h : History)
      → Settled app.config a h (handle_create_message_failure app a c e h)
  unfolding handle_create_message_failure state_error
  create_failure-Settled a c e h = ground arith

  pub forward_reconciliation_failure-Prepared :
      (a : AttemptLease) (id room : Text) (e : WebexCallError) (h : History)
      → Prepared app.config a h (handle_forward_reconciliation_failure app a id room e h)
  unfolding handle_forward_reconciliation_failure state_error
  forward_reconciliation_failure-Prepared a id room e h = ground arith

  pub forward_create_failure-Prepared :
      (a : AttemptLease) (c : ForwardCreateContext) (e : WebexCallError) (h : History)
      → Prepared app.config a h (handle_forward_create_failure app a c e h)
  unfolding handle_forward_create_failure state_error
  forward_create_failure-Prepared a c e h = ground arith

  -- Posting a message settles nothing, and goes into no read-only source room.
  pub create_message-Quiet :
      (r : CreateMessage) (h : History) → Quiet app.config h (create_message app r h).1
  unfolding create_message
  create_message-Quiet r h = ground arith
