-- ===== src/Bot/Failures.antt =====
-- The state store's calls, and what the bot does when a Webex call fails (src/main.rs).
use webex_generic_account_bo.Base.{
  ℕ, Option, none, some, ◌++◌, Result, ok, err, Duration, if◌then◌else◌,
}
use webex_generic_account_bo.Text.{Text, text}
use webex_generic_account_bo.Config.{attempt_lease, room_is_read_only_source}
use webex_generic_account_bo.Webex.{
  Message, CreateMessage, WebexCallError, write_blocked, display_call_error, WebexFailureAction,
  stop, retry, classify_webex_failure, classify_webex_create_failure, HttpError, retry_after_error,
}
use webex_generic_account_bo.Bot.Monad.{
  AttemptLease, AttemptStart, began, marked, deferred, searched, created, App, M, ◌>>=◌, ◌>>◌, done,
  fail, call, store_call,
}
use webex_generic_account_bo.Bot.Actions.{BotAction, ignored, replied}

-- `status` 503 with a retry delay.
unfoldable pub unavailable : Text → Duration → HttpError
unfolding retry_after_error
unavailable message delay = retry_after_error 503 message delay

pub record ReplyCreateContext : Type 0 where
  pub message_id : Text
  pub room_id : Text
  pub parent_id : Text
  pub reply_marker : Text
  pub marker_search_max_pages : Option ℕ
  pub reply_chars : ℕ

pub record ForwardCreateContext : Type 0 where
  pub message_id : Text
  pub output_room_id : Text
  pub source_marker : Text
  pub marker_search_max_pages : Option ℕ

pub record ReplyThread : Type 0 where
  pub room_id : Text
  pub parent_id : Text

pub data ReplyThreadSetup : Type 0 where
  ready : ReplyThread → ReplyThreadSetup
  finished : BotAction → ReplyThreadSetup

module _ (app : App) where
  open app use {config}

  unfoldable pub begin_attempt : Text → M AttemptStart
  begin_attempt message_id =
      store_call (began message_id (attempt_lease config.server))
        (λ h. app.store_begin h message_id (attempt_lease config.server))

  unfoldable pub mark_processed : AttemptLease → M (Unit {0})
  mark_processed a = store_call (marked a) (λ h. app.store_mark h a)

  unfoldable pub defer_attempt : AttemptLease → Duration → M (Unit {0})
  defer_attempt a delay = store_call (deferred a delay) (λ h. app.store_defer h a delay)

  -- `self.mark_processed(&attempt).await?; return Ok(action)`.
  unfoldable pub finish : {A : Type 0} → AttemptLease → A → M A
  unfolding mark_processed
  finish a result = do mark_processed a; done result

  -- `self.defer_attempt(attempt, delay).await?; Err(…)`.
  unfoldable pub postpone : {A : Type 0} → AttemptLease → Duration → Text → M A
  unfolding defer_attempt unavailable
  postpone a delay message = do defer_attempt a delay; fail (unavailable message delay)

  -- The refusal to write into a read-only source room stands before the call.
  unfoldable pub create_message : CreateMessage → M (Result WebexCallError Message)
  create_message r = elim r.room_id [
    | some room_id ↦
        if room_is_read_only_source config room_id
        then done (err (write_blocked room_id))
        else call (created r) (λ h. app.webex_create h r)
    | none ↦ call (created r) (λ h. app.webex_create h r)
  ]

  unfoldable pub find_existing_message_by_marker :
      Text → Option Text → Text → Option ℕ → M (Result WebexCallError (Option Message))
  find_existing_message_by_marker room_id parent_id marker max_pages =
      call (searched room_id parent_id marker max_pages)
        (λ h. app.webex_search h room_id parent_id marker max_pages)

  -- The two branches of a classified failure.
  unfoldable pub on_get_failure :
      AttemptLease → Text → WebexCallError → WebexFailureAction → M BotAction
  unfolding finish postpone
  on_get_failure a message_id error stop =
      finish a (ignored (text "message_unavailable") (some message_id) none)
  on_get_failure a message_id error (retry delay) =
      postpone a delay (
        text "failed to hydrate message "
        ++ (message_id ++ (text ": " ++ display_call_error error)))

  unfoldable pub handle_get_message_failure : AttemptLease → Text → WebexCallError → M BotAction
  unfolding on_get_failure
  handle_get_message_failure a message_id error =
      on_get_failure a message_id error (classify_webex_failure error (attempt_lease config.server))

  unfoldable pub on_reconciliation_failure :
      AttemptLease → Text → WebexCallError → WebexFailureAction → M BotAction
  unfolding finish postpone
  on_reconciliation_failure a message_id error stop =
      finish a (ignored (text "reply_reconciliation_failed") (some message_id) none)
  on_reconciliation_failure a message_id error (retry delay) = postpone a delay (
      text "failed to reconcile existing Webex reply for message "
      ++ (message_id ++ (text ": " ++ display_call_error error)))

  unfoldable pub handle_reconciliation_failure : AttemptLease → Text → WebexCallError → M BotAction
  unfolding on_reconciliation_failure
  handle_reconciliation_failure a message_id error =
      on_reconciliation_failure a message_id error
        (classify_webex_failure error (attempt_lease config.server))

  unfoldable pub on_forward_reconciliation_failure :
      AttemptLease → Text → Text → WebexCallError → WebexFailureAction → M ReplyThreadSetup
  unfolding finish postpone
  on_forward_reconciliation_failure a message_id output_room_id error stop = finish a (
      finished (
        ignored (text "source_forward_reconciliation_failed") (some message_id)
          (some output_room_id)))
  on_forward_reconciliation_failure a message_id output_room_id error (retry delay) =
      postpone a delay (
        text "failed to reconcile forwarded source message "
        ++ (message_id ++ (text ": " ++ display_call_error error)))

  unfoldable pub handle_forward_reconciliation_failure :
      AttemptLease → Text → Text → WebexCallError → M ReplyThreadSetup
  unfolding on_forward_reconciliation_failure
  handle_forward_reconciliation_failure a message_id output_room_id error =
      on_forward_reconciliation_failure a message_id output_room_id error
        (classify_webex_failure error (attempt_lease config.server))

  -- What a search after a failed forward finds: the parent for the replies, if it is there.
  unfoldable pub forward_parent : Result WebexCallError (Option Message) → Option Text
  forward_parent (ok (some forward)) = forward.id
  forward_parent (ok none) = none
  forward_parent (err e) = none

  unfoldable pub on_forward_create_failure :
      AttemptLease → ForwardCreateContext → WebexCallError → WebexFailureAction → M ReplyThreadSetup
  unfolding finish postpone find_existing_message_by_marker forward_parent
  on_forward_create_failure a c error stop = finish a (
      finished
        (ignored (text "source_forward_rejected") (some c.message_id) (some c.output_room_id)))
  on_forward_create_failure a c error (retry delay) = do
    found ←
        find_existing_message_by_marker c.output_room_id none c.source_marker
          c.marker_search_max_pages
    elim (forward_parent found) [
      | some parent_id ↦ done (ready (record { room_id = c.output_room_id; parent_id = parent_id }))
      | none ↦ postpone a delay (
          text "failed to forward Webex source message "
          ++ (c.message_id ++ (text ": " ++ display_call_error error)))
    ]

  unfoldable pub handle_forward_create_failure :
      AttemptLease → ForwardCreateContext → WebexCallError → M ReplyThreadSetup
  unfolding on_forward_create_failure
  handle_forward_create_failure a c error =
      on_forward_create_failure a c error
        (classify_webex_create_failure error (attempt_lease config.server))

  -- What a search after a failed reply finds: the reply, if it is there.
  unfoldable pub found_reply : Result WebexCallError (Option Message) → Option Message
  found_reply (ok o) = o
  found_reply (err e) = none

  unfoldable pub on_create_failure :
      AttemptLease → ReplyCreateContext → WebexCallError → WebexFailureAction → M BotAction
  unfolding finish postpone find_existing_message_by_marker found_reply
  on_create_failure a c error stop =
      finish a (ignored (text "reply_rejected") (some c.message_id) (some c.room_id))
  on_create_failure a c error (retry delay) = do
    found ←
        find_existing_message_by_marker c.room_id (some c.parent_id) c.reply_marker
          c.marker_search_max_pages
    elim (found_reply found) [
      | some reply ↦ finish a (replied c.message_id c.room_id reply.id c.reply_chars)
      | none ↦ postpone a delay (
          text "failed to send Webex reply for message "
          ++ (c.message_id ++ (text ": " ++ display_call_error error)))
    ]

  unfoldable pub handle_create_message_failure :
      AttemptLease → ReplyCreateContext → WebexCallError → M BotAction
  unfolding on_create_failure
  handle_create_message_failure a c error =
      on_create_failure a c error
        (classify_webex_create_failure error (attempt_lease config.server))
