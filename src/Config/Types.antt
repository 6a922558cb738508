-- ===== src/Config/Types.antt =====
-- The configuration records and their defaults (src/config.rs).
use webex_generic_account_bo.Base.{
  ℕ, Bool, true, false, Option, none, List, [], ◌∷◌, Duration, from_secs, max,
}
use webex_generic_account_bo.Text.{Text, text}
use webex_generic_account_bo.ConfigCommands.{ConfigCommandsConfig}

-- A `PathBuf` by its text.
abbrev pub FilePath : Type 0
FilePath = Text

pub data IsolationMode : Type 0 where
  current_user ephemeral_linux_user : IsolationMode

pub record IsolationConfig : Type 0 where
  pub mode : IsolationMode
  pub trusted_prompt_authors : Bool

unfoldable pub default_isolation : IsolationConfig
default_isolation = record { mode = current_user; trusted_prompt_authors = true }

pub record CodexConfig : Type 0 where
  pub bin : Text
  pub cwd : FilePath
  pub codex_home : FilePath
  pub profile : Option Text
  pub model : Option Text
  pub model_reasoning_effort : Option Text
  pub sandbox : Text
  pub approval_policy : Text
  pub timeout_secs : ℕ
  pub output_limit_chars : ℕ
  pub skip_git_repo_check : Bool
  pub ephemeral : Bool
  pub isolation : IsolationConfig

unfoldable pub default_codex : CodexConfig
unfolding default_isolation
default_codex = record {
  bin = text "codex";
  cwd = text ".";
  codex_home = text "/var/lib/webex-generic-account-bot/codex-home";
  profile = none;
  model = none;
  model_reasoning_effort = none;
  sandbox = text "read-only";
  approval_policy = text "never";
  timeout_secs = 600;
  output_limit_chars = 6000;
  skip_git_repo_check = false;
  ephemeral = true;
  isolation = default_isolation;
}

pub record CodexConfigPatch : Type 0 where
  pub bin : Option Text
  pub cwd : Option FilePath
  pub codex_home : Option FilePath
  pub profile : Option Text
  pub model : Option Text
  pub model_reasoning_effort : Option Text
  pub sandbox : Option Text
  pub approval_policy : Option Text
  pub timeout_secs : Option ℕ
  pub output_limit_chars : Option ℕ
  pub skip_git_repo_check : Option Bool
  pub ephemeral : Option Bool
  pub isolation : Option IsolationConfig

pub data ReplyFormat : Type 0 where
  markdown jenkins_diagnosis_json jenkins_followup_json : ReplyFormat

pub data FollowupTrigger : Type 0 where
  on_mention quoted_bot_reply : FollowupTrigger

pub record FollowupConfig : Type 0 where
  pub enabled : Bool
  pub triggers : List FollowupTrigger
  pub allow_all_senders : Bool
  pub allowed_person_ids : List Text
  pub allowed_person_emails : List Text
  pub max_thread_messages : ℕ
  pub max_thread_context_chars : ℕ
  pub reply_format : Option ReplyFormat
  pub prompt_template : Text

-- The template's text is left as a parameter of the record's default.
unfoldable pub default_followup : Text → FollowupConfig
default_followup template = record {
  enabled = false;
  triggers = on_mention ∷ [];
  allow_all_senders = false;
  allowed_person_ids = [];
  allowed_person_emails = [];
  max_thread_messages = 30;
  max_thread_context_chars = 12000;
  reply_format = none;
  prompt_template = template;
}

pub record JenkinsContextConfig : Type 0 where
  pub enabled : Bool
  pub node_bin : Text
  pub script : FilePath
  pub env_file : FilePath
  pub timeout_secs : ℕ
  pub max_urls : ℕ
  pub output_limit_chars : ℕ

pub data TriggerMode : Type 0 where
  mention prefix always never : TriggerMode

pub record RoomPolicy : Type 0 where
  pub room_id : Text
  pub name : Option Text
  pub output_room_id : Option Text
  pub forward_source_message : Bool
  pub read_only_source : Bool
  pub jenkins_context : Option JenkinsContextConfig
  pub followup : FollowupConfig
  pub reply_format : ReplyFormat
  pub trigger : TriggerMode
  pub prefixes : List Text
  pub allow_all_senders : Bool
  pub allowed_person_ids : List Text
  pub allowed_person_emails : List Text
  pub prompt_template : Text
  pub codex : Option CodexConfigPatch

pub record ServerConfig : Type 0 where
  pub bind : Text
  pub event_path : Text
  pub health_path : Text
  pub sidecar_token_env : Text
  pub allow_unauthenticated : Bool
  pub max_concurrent_requests : ℕ
  pub attempt_lease_secs : ℕ

unfoldable pub default_server : ServerConfig
default_server = record {
  bind = text "127.0.0.1:8787";
  event_path = text "/webex/events";
  health_path = text "/healthz";
  sidecar_token_env = text "WEBEX_SIDECAR_TOKEN";
  allow_unauthenticated = false;
  max_concurrent_requests = 4;
  attempt_lease_secs = 900;
}

unfoldable pub attempt_lease : ServerConfig → Duration
attempt_lease s = from_secs (max s.attempt_lease_secs 1)

pub record WebexAuthConfig : Type 0 where
  pub access_token_env : Text
  pub access_token_file_env : Text
  pub access_token_file : Option FilePath

pub record BotConfig : Type 0 where
  pub server : ServerConfig
  pub webex : WebexAuthConfig
  pub state_file : FilePath
  pub self_person_id : Option Text
  pub codex : CodexConfig
  pub rooms : List RoomPolicy
  pub config_commands : Option ConfigCommandsConfig
