-- ===== src/Config/Defs.antt =====
-- `BotConfig`: lookups and `validate` (src/config.rs).
use webex_generic_account_bo.Base.{
  ℕ, Bool, true, ◌&&◌, ◌||◌, not, Option, none, some, List, [], ◌∷◌, any, all, find, keep, ltb, leb,
  ◌==◌, if◌then◌else◌, is_empty, is_some, is_some_and, Result, ok, err, ensure, ◌>>◌,
}
use webex_generic_account_bo.Text.{
  Text, text, text_eq, contains_text, contains, is_blank, trim, is_some_text,
}
use webex_generic_account_bo.ConfigCommands
use webex_generic_account_bo.ConfigCommands.{ConfigCommandsConfig, CommandsError, command_allowed}
use webex_generic_account_bo.Config.Types.{
  CodexConfig, JenkinsContextConfig, RoomPolicy, ServerConfig, WebexAuthConfig, BotConfig, FilePath,
}
use webex_generic_account_bo.Config.Paths.{Host, path_is_inside}
use webex_generic_account_bo.Config.Codex.{CodexError, is_ephemeral, validate_codex, apply_to}
use webex_generic_account_bo.Config.Room.{RoomError, validate_room}
use webex_generic_account_bo.Config.Lease.{
  webex_requests_per_attempt, room_webex_requests, room_prefetch_secs, lease_suffices,
}

-- What `BotConfig::validate` refuses, by the message of its `anyhow!`.
pub data ConfigError : Type 0 where
  bad_http_path bad_bind unauthenticated_not_loopback same_paths no_rooms : ConfigError
  empty_self_person_id duplicate_room_id command_room_is_room command_room_is_output : ConfigError
  pull_needs_ephemeral mixed_isolation over_launcher_connections lease_too_short : ConfigError
  token_inside_cwd home_overlaps_cwd script_inside_cwd env_file_inside_cwd : ConfigError
  in_room : RoomError → ConfigError
  in_commands : CommandsError → ConfigError
  in_codex : CodexError → ConfigError

-- `map_err`.
abbrev lift : {E : Type 0} → (E → ConfigError) → Result E (Unit {0}) → Result ConfigError (Unit {0})
lift f (ok u) = ok u
lift f (err e) = err (f e)

unfoldable pub policy_for_room : BotConfig → Text → Option RoomPolicy
policy_for_room c room_id = find (λ p. text_eq p.room_id room_id) c.rooms

unfoldable pub followup_policies_for_event_room : BotConfig → Text → List RoomPolicy
followup_policies_for_event_room c room_id =
    keep
      (λ p.
        p.followup.enabled && (text_eq p.room_id room_id || is_some_text room_id p.output_room_id))
      c.rooms

unfoldable pub room_is_read_only_source : BotConfig → Text → Bool
room_is_read_only_source c room_id =
    any (λ p. p.read_only_source && text_eq p.room_id room_id) c.rooms

unfoldable pub codex_for_policy : BotConfig → RoomPolicy → CodexConfig
codex_for_policy c p = elim p.codex [ none ↦ c.codex | some patch ↦ apply_to patch c.codex ]

-- The room configurations of `codex_configs`; their names only label errors.
unfoldable pub room_codex_configs : BotConfig → List RoomPolicy → List CodexConfig
room_codex_configs c [] = []
room_codex_configs c (r ∷ rs) =
    let rest = room_codex_configs c rs in
    if is_some r.codex then codex_for_policy c r ∷ rest else rest

unfoldable pub codex_configs : BotConfig → List CodexConfig
unfolding room_codex_configs
codex_configs c = c.codex ∷ room_codex_configs c c.rooms

unfoldable pub uses_ephemeral_linux_user : BotConfig → Bool
uses_ephemeral_linux_user c = any (λ x. is_ephemeral x.isolation.mode) (codex_configs c)

unfoldable pub all_codex_configs_use_ephemeral_linux_user : BotConfig → Bool
all_codex_configs_use_ephemeral_linux_user c =
    all (λ x. is_ephemeral x.isolation.mode) (codex_configs c)

-- The loop of `validate_room_ids`; `seen` is the hash set.
unfoldable pub room_ids_unique : List Text → List RoomPolicy → Bool
room_ids_unique seen [] = true
room_ids_unique seen (r ∷ rs) =
    not (contains_text r.room_id seen) && room_ids_unique (r.room_id ∷ seen) rs

unfoldable pub validate_http_path : Text → Result ConfigError (Unit {0})
validate_http_path [] = err bad_http_path
validate_http_path (c ∷ s) =
    ensure
      (c == b'/'
        && not (contains (text "?") (c ∷ s))
        && not (contains (text "#") (c ∷ s))
        && text_eq (trim (c ∷ s)) (c ∷ s))
      bad_http_path

unfoldable pub validate_server : Host → ServerConfig → Result ConfigError (Unit {0})
validate_server host s = elim (host.parse_bind s.bind) [
  | none ↦ err bad_bind
  | some loopback ↦
      ensure (not (s.allow_unauthenticated && not loopback)) unauthenticated_not_loopback
]

unfoldable pub validate_rooms : List RoomPolicy → Result ConfigError (Unit {0})
validate_rooms [] = ok tt
validate_rooms (r ∷ rs) = lift in_room (validate_room r) >> validate_rooms rs

unfoldable pub validate_config_commands_room :
    Text → List RoomPolicy → Result ConfigError (Unit {0})
validate_config_commands_room room_id [] = ok tt
validate_config_commands_room room_id (r ∷ rs) =
    ensure (not (text_eq r.room_id room_id)) command_room_is_room
    >> ensure (not (is_some_text room_id r.output_room_id)) command_room_is_output
    >> validate_config_commands_room room_id rs

unfoldable pub validate_commands :
    BotConfig → Option ConfigCommandsConfig → Result ConfigError (Unit {0})
validate_commands c none = ok tt
validate_commands c (some k) =
    lift in_commands (ConfigCommands.validate k)
    >> validate_config_commands_room k.room_id c.rooms
    >> ensure
        (not (
          command_allowed k ConfigCommands.pull
          && not (all_codex_configs_use_ephemeral_linux_user c)))
        pull_needs_ephemeral

unfoldable pub validate_codexes : List CodexConfig → Result ConfigError (Unit {0})
validate_codexes [] = ok tt
validate_codexes (x ∷ xs) = lift in_codex (validate_codex x) >> validate_codexes xs

abbrev pub launcher_max_connections : ℕ
launcher_max_connections = 4

unfoldable pub validate_isolation_mix : BotConfig → Result ConfigError (Unit {0})
validate_isolation_mix c =
    if uses_ephemeral_linux_user c
    then ensure (all_codex_configs_use_ephemeral_linux_user c) mixed_isolation
      >> ensure (leb c.server.max_concurrent_requests launcher_max_connections)
          over_launcher_connections
    else ok tt

-- The loop over the rooms in `validate_attempt_lease`.
unfoldable pub room_leases_suffice : BotConfig → List RoomPolicy → Bool
room_leases_suffice c [] = true
room_leases_suffice c (r ∷ rs) =
    let prefetch = room_prefetch_secs r.jenkins_context in
    let requests = room_webex_requests r in
    (if is_some r.codex || ltb 0 prefetch || ltb webex_requests_per_attempt requests
      then lease_suffices c.server.attempt_lease_secs (codex_for_policy c r) prefetch requests
      else true)
    && room_leases_suffice c rs

unfoldable pub validate_attempt_lease : BotConfig → Result ConfigError (Unit {0})
validate_attempt_lease c =
    ensure (lease_suffices c.server.attempt_lease_secs c.codex 0 webex_requests_per_attempt)
      lease_too_short
    >> ensure (room_leases_suffice c c.rooms) lease_too_short

unfoldable pub runtime_access_token_file : Host → WebexAuthConfig → Option FilePath
runtime_access_token_file host w = elim w.access_token_file [
  | some path ↦ some path
  | none ↦ elim (host.env_var w.access_token_file_env) [
    | some path ↦ if is_blank path then none else some path
    | none ↦ none
  ]
]

unfoldable pub jenkins_paths_outside :
    Host → CodexConfig → JenkinsContextConfig → Result ConfigError (Unit {0})
jenkins_paths_outside host codex j =
    ensure (not (path_is_inside host j.script codex.cwd)) script_inside_cwd
    >> ensure (not (path_is_inside host j.env_file codex.cwd)) env_file_inside_cwd

-- The loop over the rooms in `validate_secret_boundaries`.
unfoldable pub validate_jenkins_paths :
    Host → BotConfig → List RoomPolicy → Result ConfigError (Unit {0})
unfolding jenkins_paths_outside
validate_jenkins_paths host c [] = ok tt
validate_jenkins_paths host c (r ∷ rs) =
    elim r.jenkins_context [
      | none ↦ ok tt
      | some j ↦ if j.enabled then jenkins_paths_outside host (codex_for_policy c r) j else ok tt
    ]
    >> validate_jenkins_paths host c rs

unfoldable pub validate_secret_boundaries : Host → BotConfig → Result ConfigError (Unit {0})
validate_secret_boundaries host c =
    ensure
      (not (
        is_some_and (λ t. any (λ x. path_is_inside host t x.cwd) (codex_configs c))
          (runtime_access_token_file host c.webex)))
      token_inside_cwd
    >> ensure
        (not (
          any
            (λ x. path_is_inside host x.codex_home x.cwd || path_is_inside host x.cwd x.codex_home)
            (codex_configs c)))
        home_overlaps_cwd
    >> validate_jenkins_paths host c c.rooms

unfoldable pub validate : Host → BotConfig → Result ConfigError (Unit {0})
validate host c =
    validate_http_path c.server.event_path
    >> validate_http_path c.server.health_path
    >> validate_server host c.server
    >> ensure (not (text_eq c.server.event_path c.server.health_path)) same_paths
    >> ensure (not (is_empty c.rooms)) no_rooms
    >> ensure (not (is_some_and is_blank c.self_person_id)) empty_self_person_id
    >> ensure (room_ids_unique [] c.rooms) duplicate_room_id
    >> validate_rooms c.rooms
    >> validate_commands c c.config_commands
    >> validate_codexes (codex_configs c)
    >> validate_isolation_mix c
    >> validate_attempt_lease c
    >> validate_secret_boundaries host c
