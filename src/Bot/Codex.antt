-- ===== src/Bot/Codex.antt =====
-- Running Codex and posting its reply (`run_codex_reply` of src/main.rs).
use webex_generic_account_bo.Base.{
  ℕ, Bool, true, false, ◌&&◌, Option, none, some, List, [], ◌++◌, Result, ok, err, if◌then◌else◌,
  is_empty,
}
use webex_generic_account_bo.Text.{Text, text, byte_len}
use webex_generic_account_bo.Config.{
  CodexConfig, RoomPolicy, ReplyFormat, markdown, jenkins_diagnosis_json, jenkins_followup_json,
  FilePath, codex_for_policy,
}
use webex_generic_account_bo.Policy.{MessageContext}
use webex_generic_account_bo.Markers.{reply_marker}
use webex_generic_account_bo.Reply.{
  prepare_reply_markdown, reply_markdown_message, existing_reply_chars,
}
use webex_generic_account_bo.Webex.{Message, WebexCallError}
use webex_generic_account_bo.Bot.Monad.{
  AttemptLease, marked, prefetched, ran, checked_excerpt, cleaned, JenkinsPrefetchedContext, App, M,
  ◌>>=◌, ◌>>◌, done, call,
}
use webex_generic_account_bo.Bot.Actions.{BotAction, replied}
use webex_generic_account_bo.Bot.Failures.{
  ReplyThread, finish, create_message, find_existing_message_by_marker,
  handle_reconciliation_failure, handle_create_message_failure,
}

pub record CodexReplyRequest : Type 0 where
  pub message_id : Text
  pub reply_format : ReplyFormat
  pub reply_marker_search_max_pages : Option ℕ
  pub reply_thread : ReplyThread
  pub prompt : Text

-- What is known before the run: whether it is called off, and what was prefetched.
pub record Prefetch : Type 0 where
  pub failed : Bool
  pub prompt : Text
  pub console_urls : List Text
  pub evidence_logs : List (Text × FilePath)
  pub artifact_root : Option FilePath

unfoldable pub prefetch_required : ReplyFormat → Bool
prefetch_required markdown = false
prefetch_required jenkins_diagnosis_json = true
prefetch_required jenkins_followup_json = true

unfoldable pub append_prefetched_context : Text → Text → Text
append_prefetched_context prompt context = prompt ++ (text "\n\n" ++ context)

unfoldable pub no_prefetch : Bool → Text → Prefetch
no_prefetch failed prompt = record {
  failed = failed;
  prompt = prompt;
  console_urls = [];
  evidence_logs = [];
  artifact_root = none;
}

-- The three outcomes of the prefetch.
unfoldable pub prefetch_outcome :
    Bool → Text → Result Text (Option JenkinsPrefetchedContext) → Prefetch
unfolding no_prefetch
prefetch_outcome required prompt (ok (some bundle)) =
    if required && is_empty bundle.console_urls
    then record {
      failed = true;
      prompt = prompt;
      console_urls = [];
      evidence_logs = [];
      artifact_root = some bundle.artifact_root;
    }
    else record {
      failed = false;
      prompt = append_prefetched_context prompt bundle.prompt;
      console_urls = bundle.console_urls;
      evidence_logs = bundle.evidence_logs;
      artifact_root = some bundle.artifact_root;
    }
prefetch_outcome required prompt (ok none) = no_prefetch required prompt
prefetch_outcome required prompt (err e) = no_prefetch required prompt

module _ (app : App) where
  unfoldable pub prefetch_context :
      RoomPolicy → ReplyFormat → CodexConfig → Text → Option MessageContext → M Prefetch
  unfolding no_prefetch
  prefetch_context policy format codex prompt none =
      done (no_prefetch (prefetch_required format) prompt)
  prefetch_context policy format codex prompt (some context) = do
    outcome ← call (prefetched context.message_id) (λ h. app.prefetch h policy format codex context)
    done (prefetch_outcome (prefetch_required format) prompt outcome)

  -- `None` where the prefetch called the run off.
  unfoldable pub run_codex : CodexConfig → Text → Prefetch → M (Option (Result Text Text))
  run_codex codex message_id p = if p.failed then done none else (do
    output ←
        call (ran codex p.prompt message_id)
          (λ h. app.run_codex h codex p.prompt message_id p.artifact_root)
    done (some output))

  -- The excerpt of a successful run in a Jenkins format that its evidence bears out.
  unfoldable pub verified_excerpt :
      ReplyFormat → Option (Result Text Text) → List (Text × FilePath) → M (Option Text)
  verified_excerpt markdown o logs = done none
  verified_excerpt format none logs = done none
  verified_excerpt format (some (err e)) logs = done none
  verified_excerpt format (some (ok output)) logs =
      call (checked_excerpt output) (λ h. app.excerpt_check h format output logs)

  -- A failed cleanup is only logged.
  unfoldable pub clean_artifacts : Option FilePath → M (Unit {0})
  clean_artifacts none = done tt
  clean_artifacts (some root) =
      call (cleaned root) (λ h. elim (app.remove_artifacts h root) [ ok u ↦ tt | err e ↦ tt ])

  unfoldable pub render_output : ReplyFormat → Text → List Text → Option Text → Text
  render_output markdown output urls excerpt = output
  render_output jenkins_diagnosis_json output urls excerpt =
      app.render_jenkins jenkins_diagnosis_json output urls excerpt
  render_output jenkins_followup_json output urls excerpt =
      app.render_jenkins jenkins_followup_json output urls excerpt

  unfoldable pub reply_text :
      ReplyFormat → Option (Result Text Text) → List Text → Option Text → Text
  reply_text format none urls excerpt =
      text
        "**Not enough evidence:** Jenkins diagnostics could not be fetched; check the bot service logs for details."
  reply_text format (some (ok output)) urls excerpt = render_output format output urls excerpt
  reply_text format (some (err e)) urls excerpt =
      text "Codex run failed. Check the bot service logs for details."

  -- `mark_processed` after Webex accepted the reply: a failure is only logged.
  unfoldable pub mark_after_reply : AttemptLease → M (Unit {0})
  mark_after_reply a = call (marked a) (λ h. elim (app.store_mark h a) [ ok u ↦ tt | err e ↦ tt ])

  -- From the prefetch to the text of the reply.
  unfoldable pub codex_reply_text : RoomPolicy → CodexReplyRequest → Option MessageContext → M Text
  unfolding prefetch_context run_codex verified_excerpt clean_artifacts
  codex_reply_text policy r context = do
    let codex = codex_for_policy app.config policy
    p ← prefetch_context policy r.reply_format codex r.prompt context
    outcome ← run_codex codex r.message_id p
    excerpt ← verified_excerpt r.reply_format outcome p.evidence_logs
    clean_artifacts p.artifact_root
    done (reply_text r.reply_format outcome p.console_urls excerpt)

  -- Posting the reply, and settling the attempt.
  unfoldable pub post_reply : AttemptLease → CodexReplyRequest → Text → M BotAction
  unfolding create_message mark_after_reply
  post_reply a r answer = do
    let marker = reply_marker r.message_id
    let body = prepare_reply_markdown answer marker
    outcome ←
        create_message app
          (reply_markdown_message r.reply_thread.room_id r.reply_thread.parent_id body)
    elim outcome [
      | ok reply ↦ (do
        mark_after_reply a
        done (replied r.message_id r.reply_thread.room_id reply.id (byte_len body)))
      | err error ↦
          handle_create_message_failure app a
            (record {
              message_id = r.message_id;
              room_id = r.reply_thread.room_id;
              parent_id = r.reply_thread.parent_id;
              reply_marker = marker;
              marker_search_max_pages = r.reply_marker_search_max_pages;
              reply_chars = byte_len body;
            })
            error
    ]

  -- What the search for an earlier reply found.
  unfoldable pub on_reply_found :
      AttemptLease
      → RoomPolicy
      → CodexReplyRequest
      → Option MessageContext
      → Result WebexCallError (Option Message)
      → M BotAction
  unfolding finish
  on_reply_found a policy r context (ok (some reply)) =
      finish app a
        (replied r.message_id r.reply_thread.room_id reply.id (existing_reply_chars reply))
  on_reply_found a policy r context (ok none) = do
    answer ← codex_reply_text policy r context
    post_reply a r answer
  on_reply_found a policy r context (err error) =
      handle_reconciliation_failure app a r.message_id error

  unfoldable pub run_codex_reply :
      AttemptLease → RoomPolicy → CodexReplyRequest → Option MessageContext → M BotAction
  unfolding find_existing_message_by_marker
  run_codex_reply a policy r context = do
    found ←
        find_existing_message_by_marker app r.reply_thread.room_id (some r.reply_thread.parent_id)
          (reply_marker r.message_id) r.reply_marker_search_max_pages
    on_reply_found a policy r context found
