-- ===== src/Checks/Samples.antt =====
-- A small configuration, messages, and services with fixed answers.
use webex_generic_account_bo.Base.{true, false, Option, none, some, [], ◌∷◌, Result, ok, err}
use webex_generic_account_bo.Text.{Text, text}
use webex_generic_account_bo.ConfigCommands
use webex_generic_account_bo.ConfigCommands.{ConfigCommandsConfig}
use webex_generic_account_bo.Config.{
  BotConfig, RoomPolicy, CodexConfig, FollowupConfig, ephemeral_linux_user, mention, markdown,
  on_mention, Host, root_dir,
}
use webex_generic_account_bo.Webex.{Message, WebexCallError, client, api, SidecarEvent, payload}
use webex_generic_account_bo.Bot.{App, started}

abbrev pub codex : CodexConfig
codex = record {
  bin = text "codex";
  cwd = text "/srv/work";
  codex_home = text "/srv/home";
  profile = none;
  model = some (text "gpt-5.5");
  model_reasoning_effort = none;
  sandbox = text "read-only";
  approval_policy = text "never";
  timeout_secs = 600;
  output_limit_chars = 6000;
  skip_git_repo_check = true;
  ephemeral = true;
  isolation = record { mode = ephemeral_linux_user; trusted_prompt_authors = false };
}

abbrev pub followup : FollowupConfig
followup = record {
  enabled = true;
  triggers = on_mention ∷ [];
  allow_all_senders = false;
  allowed_person_ids = [];
  allowed_person_emails = [];
  max_thread_messages = 30;
  max_thread_context_chars = 12000;
  reply_format = none;
  prompt_template = text "{body}";
}

-- The room S is a read-only source, and its replies go to the room O.
abbrev pub source_room : RoomPolicy
source_room = record {
  room_id = text "S";
  name = none;
  output_room_id = some (text "O");
  forward_source_message = true;
  read_only_source = true;
  jenkins_context = none;
  followup = followup;
  reply_format = markdown;
  trigger = mention;
  prefixes = [];
  allow_all_senders = false;
  allowed_person_ids = text "ann" ∷ [];
  allowed_person_emails = [];
  prompt_template = text "{body}";
  codex = none;
}

abbrev pub admin : ConfigCommandsConfig
admin = record {
  room_id = text "A";
  allowed_person_ids = text "ann" ∷ [];
  allowed_person_emails = [];
  allowed_commands = ConfigCommands.status ∷ ConfigCommands.pull ∷ [];
}

abbrev pub config : BotConfig
config = record {
  server = record {
    bind = text "127.0.0.1:8787";
    event_path = text "/events";
    health_path = text "/healthz";
    sidecar_token_env = text "TOKEN";
    allow_unauthenticated = false;
    max_concurrent_requests = 4;
    attempt_lease_secs = 9000;
  };
  webex = record {
    access_token_env = text "ACCESS";
    access_token_file_env = text "ACCESS_FILE";
    access_token_file = some (text "/etc/token");
  };
  state_file = text "/srv/state";
  self_person_id = some (text "bot");
  codex = codex;
  rooms = source_room ∷ [];
  config_commands = some admin;
}

abbrev pub host : Host
host = record {
  current_dir = some (root_dir ∷ []);
  canonicalize = λ p. none;
  env_var = λ v. none;
  parse_bind = λ s. some true;
}

-- A message of a person in a room.
abbrev pub message_of : Text → Text → Text → Message
message_of person room body = record {
  id = some (text "m");
  room_id = some room;
  parent_id = none;
  person_id = some person;
  person_email = none;
  body_text = some body;
  markdown = none;
  html = none;
  mentioned_people = [];
  created = none;
}

abbrev pub not_found : WebexCallError
not_found = client (api (record { status = 404; retry_after = none; display = text "gone" }))

abbrev pub busy : WebexCallError
busy = client (api (record { status = 503; retry_after = none; display = text "busy" }))

-- The services; the event's message, the search and the action worker answer as told.
abbrev pub app_with :
    Result WebexCallError Message → Result WebexCallError (Option Message) → Result Text Text → App
app_with hydrated search receipt = record {
  config = config;
  self_person_id = some (text "bot");
  store_begin = λ h id d. ok (started 7);
  store_mark = λ h a. ok tt;
  store_defer = λ h a d. ok tt;
  webex_event_message = λ h id. hydrated;
  webex_message = λ h id. err not_found;
  webex_thread = λ h room parent limit. ok [];
  webex_search = λ h room parent marker pages. search;
  webex_create = λ h r. ok (message_of (text "bot") (text "O") (text "done"));
  clock = λ h. none;
  format_time = λ t. [];
  config_status = λ h. ok (text "fine");
  config_enqueue = λ h id. receipt;
  prefetch = λ h p f c m. ok none;
  run_codex = λ h c p m r. ok (text "answer");
  excerpt_check = λ h f t l. none;
  remove_artifacts = λ h p. ok tt;
  render_jenkins = λ f t u e. t;
}

abbrev pub ann_asks : Message
ann_asks = message_of (text "ann") (text "S") (text "help")

abbrev pub ann_pulls : Message
ann_pulls = message_of (text "ann") (text "A") (text "/config pull")

abbrev pub bob_pulls : Message
bob_pulls = message_of (text "bob") (text "A") (text "/config pull")

abbrev pub own_message : Message
own_message = message_of (text "bot") (text "S") (text "hi")

abbrev pub app : App
app = app_with (ok ann_asks) (ok none) (ok (text "r1"))

abbrev pub event : SidecarEvent
event = record {
  version = 1;
  resource = text "messages";
  event = text "created";
  contents = payload ann_asks;
}
