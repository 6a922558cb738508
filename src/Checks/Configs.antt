-- ===== src/Checks/Configs.antt =====
-- Validated configurations and permission tables, at a concrete configuration.
use webex_generic_account_bo.Base.{arith, ◌≡◌, ◌<◌, ◌||◌, not, refl, true, All, none, [], is_ok}
use webex_generic_account_bo.Text.{
  text, text_eq, contains_text, trim, trim_start, trim_end, is_whitespace, is_blank, contains,
  strip_prefix, to_ascii_lower, to_ascii_lowercase,
}
use webex_generic_account_bo.ConfigCommands
use webex_generic_account_bo.ConfigCommands.{
  command_allowed, command_in, command_eq, is_trimmed_value, deduplication_key,
  validate_string_list, no_duplicate_commands, is_deployable, all_deployable,
}
use webex_generic_account_bo.Config.{
  ephemeral_linux_user, is_ephemeral, validate_isolation, valid_reasoning_effort,
  validate_ephemeral, validate_codex, apply_to, policy_for_room, followup_policies_for_event_room,
  codex_for_policy, room_codex_configs, codex_configs, uses_ephemeral_linux_user,
  all_codex_configs_use_ephemeral_linux_user, room_ids_unique, validate_http_path, validate_server,
  validate_rooms, validate_config_commands_room, validate_commands, validate_codexes,
  validate_isolation_mix, room_leases_suffice, validate_attempt_lease, runtime_access_token_file,
  jenkins_paths_outside, validate_jenkins_paths, validate_secret_boundaries, validate,
  validate_jenkins, validate_followup, is_prefix_trigger, validate_output_room,
  validate_jenkins_context, validate_room, followup_reply_marker_search_max_pages,
  webex_page_requests, followup_webex_requests, room_webex_requests, max_prefetch_secs,
  room_prefetch_secs, minimum_lease, lease_suffices, component_eq, split_slash, component_of,
  inner_components, relative_components, is_absolute, components, pop, push, normalize_from,
  normalize_lexical, path_starts_with, absolute_lexical, path_is_inside,
}
use webex_generic_account_bo.Config.Separation.{
  has_other_output, read_only_source_has_other_output, admin_room_has_no_policy,
  pull_needs_ephemeral_runners,
}
use webex_generic_account_bo.Config.Planned.{attempt_secs}
use webex_generic_account_bo.Config.Budget.{lease_covers_every_room}
use webex_generic_account_bo.Checks.Samples.{config, host, admin}

config_valid : is_ok (validate host config) ≡ true
unfolding text text_eq contains_text trim trim_start trim_end is_whitespace is_blank contains
    strip_prefix to_ascii_lower to_ascii_lowercase ConfigCommands.validate command_allowed
    command_in command_eq is_trimmed_value deduplication_key validate_string_list
    no_duplicate_commands is_deployable all_deployable is_ephemeral validate_isolation
    valid_reasoning_effort validate_ephemeral validate_codex apply_to codex_for_policy
    room_codex_configs codex_configs uses_ephemeral_linux_user
    all_codex_configs_use_ephemeral_linux_user room_ids_unique validate_http_path validate_server
    validate_rooms validate_config_commands_room validate_commands validate_codexes
    validate_isolation_mix room_leases_suffice validate_attempt_lease runtime_access_token_file
    jenkins_paths_outside validate_jenkins_paths validate_secret_boundaries validate
    validate_jenkins validate_followup is_prefix_trigger validate_output_room
    validate_jenkins_context validate_room followup_reply_marker_search_max_pages
    webex_page_requests followup_webex_requests room_webex_requests max_prefetch_secs
    room_prefetch_secs minimum_lease lease_suffices component_eq split_slash component_of
    inner_components relative_components is_absolute components pop push normalize_from
    normalize_lexical path_starts_with absolute_lexical path_is_inside
config_valid = refl

admin_valid : is_ok (ConfigCommands.validate admin) ≡ true
unfolding text text_eq contains_text trim trim_start trim_end is_whitespace is_blank to_ascii_lower
    to_ascii_lowercase ConfigCommands.validate command_in command_eq is_trimmed_value
    deduplication_key validate_string_list no_duplicate_commands is_deployable all_deployable
admin_valid = refl

pull_allowed : command_allowed admin ConfigCommands.pull ≡ true
unfolding command_allowed command_in command_eq
pull_allowed = refl

admin_room_has_no_policy_example :
    (policy_for_room config (text "A") ≡ none)
    × (followup_policies_for_event_room config (text "A") ≡ [])
admin_room_has_no_policy_example = admin_room_has_no_policy host config admin config_valid refl

pull_needs_ephemeral_runners_example :
    (config.codex.isolation.mode ≡ ephemeral_linux_user)
    × All (λ r. (codex_for_policy config r).isolation.mode ≡ ephemeral_linux_user) config.rooms
pull_needs_ephemeral_runners_example =
    pull_needs_ephemeral_runners host config admin config_valid refl pull_allowed

read_only_source_has_other_output_example :
    All (λ p. (not p.read_only_source || has_other_output p) ≡ true) config.rooms
read_only_source_has_other_output_example =
    read_only_source_has_other_output host config config_valid

lease_covers_every_room_example :
    All (λ r. attempt_secs config r < config.server.attempt_lease_secs) config.rooms
unfolding codex_for_policy
lease_covers_every_room_example =
    lease_covers_every_room host config config_valid (omega arith) (omega arith, tt)
