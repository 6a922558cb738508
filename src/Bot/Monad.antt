-- ===== src/Bot/Monad.antt =====
-- The services that the bot calls, the history of its calls, and the monad of its handlers.
--
-- A handler is a function from the history of calls, newest first, to its result and the longer
-- history. A service answers by the history so far, so it may answer every call differently.
use webex_generic_account_bo.Base.{ℕ, Option, List, ◌∷◌, Result, ok, err, Duration, ℤ}
use webex_generic_account_bo.Text.{Text}
use webex_generic_account_bo.Config.{BotConfig, CodexConfig, RoomPolicy, ReplyFormat, FilePath}
use webex_generic_account_bo.Policy.{MessageContext}
use webex_generic_account_bo.Webex.{Message, CreateMessage, WebexCallError, HttpError, state_error}

-- The handle of a leased attempt of the state store.
abbrev pub AttemptLease : Type 0
AttemptLease = ℕ

pub data AttemptStart : Type 0 where
  started : AttemptLease → AttemptStart
  processed : AttemptStart
  leased : Duration → AttemptStart

-- A call of a service, with its arguments.
pub data Call : Type 0 where
  began : Text → Duration → Call
  marked : AttemptLease → Call
  deferred : AttemptLease → Duration → Call
  fetched_event : Text → Call
  fetched : Text → Call
  slept : Duration → Call
  listed : Text → Text → ℕ → Call
  searched : Text → Option Text → Text → Option ℕ → Call
  created : CreateMessage → Call
  read_clock : Call
  read_status : Call
  enqueued : Text → Call
  prefetched : Text → Call
  ran : CodexConfig → Text → Text → Call
  checked_excerpt : Text → Call
  cleaned : FilePath → Call

abbrev pub History : Type 0
History = List Call

-- What the prefetch of Jenkins diagnostics delivers.
pub record JenkinsPrefetchedContext : Type 0 where
  pub prompt : Text
  pub artifact_root : FilePath
  pub console_urls : List Text
  pub evidence_logs : List (Text × FilePath)

-- The fields of `BotApp`: the configuration, the own person ID, and the services. An error of the
-- state store, the status provider, the action client, the prefetch or the runner is its text.
pub record App : Type 0 where
  pub config : BotConfig
  pub self_person_id : Option Text
  pub store_begin : History → Text → Duration → Result Text AttemptStart
  pub store_mark : History → AttemptLease → Result Text (Unit {0})
  pub store_defer : History → AttemptLease → Duration → Result Text (Unit {0})
  pub webex_event_message : History → Text → Result WebexCallError Message
  pub webex_message : History → Text → Result WebexCallError Message
  pub webex_thread : History → Text → Text → ℕ → Result WebexCallError (List Message)
  pub webex_search :
      History → Text → Option Text → Text → Option ℕ → Result WebexCallError (Option Message)
  pub webex_create : History → CreateMessage → Result WebexCallError Message
  -- Milliseconds since the epoch, unless the clock stands before it.
  pub clock : History → Option ℕ
  -- `to_rfc3339`.
  pub format_time : ℤ → Text
  -- The status snapshot, rendered.
  pub config_status : History → Result Text Text
  -- The action ID of the receipt.
  pub config_enqueue : History → Text → Result Text Text
  pub prefetch :
      History
      → RoomPolicy
      → ReplyFormat
      → CodexConfig
      → MessageContext
      → Result Text (Option JenkinsPrefetchedContext)
  -- The final message of a Codex run.
  pub run_codex : History → CodexConfig → Text → Text → Option FilePath → Result Text Text
  pub excerpt_check : History → ReplyFormat → Text → List (Text × FilePath) → Option Text
  pub remove_artifacts : History → FilePath → Result Text (Unit {0})
  -- The text of a reply in one of the two Jenkins formats.
  pub render_jenkins : ReplyFormat → Text → List Text → Option Text → Text

abbrev pub M : Type 0 → Type 0
M A = History → Result HttpError A × History

-- `?`: an error ends the handler.
abbrev pub next :
    {A B : Type 0} → Result HttpError A → History → (A → M B) → Result HttpError B × History
next (ok a) h f = f a h
next (err e) h f = (err e, h)

infixl 5 ◌>>=◌ ◌>>◌
abbrev pub ◌>>=◌ : {A B : Type 0} → M A → (A → M B) → M B
◌>>=◌ m f h = let out = m h in next out.0 out.1 f

abbrev pub ◌>>◌ : {B : Type 0} → M (Unit {0}) → M B → M B
m >> k = m >>= λ _. k

abbrev pub done : {A : Type 0} → A → M A
done a h = (ok a, h)

abbrev pub fail : {A : Type 0} → HttpError → M A
fail e h = (err e, h)

-- A call whose answer is a value.
abbrev pub call : {A : Type 0} → Call → (History → A) → M A
call c answer h = (ok (answer h), c ∷ h)

-- `map_err(HttpError::state_error)`.
abbrev pub of_store : {A : Type 0} → Result Text A → Result HttpError A
of_store (ok a) = ok a
of_store (err e) = err (state_error e)

-- A call of the state store, whose failure ends the handler.
abbrev pub store_call : {A : Type 0} → Call → (History → Result Text A) → M A
store_call c answer h = (of_store (answer h), c ∷ h)
