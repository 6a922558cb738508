-- ===== src/ConfigCommands/Defs.antt =====
-- The commands, their parser, and the validated permissions (src/config_commands.rs).
use webex_generic_account_bo.Base.{
  Bool, true, false, ◌&&◌, ◌||◌, not, Option, none, some, List, [], ◌∷◌, any, if◌then◌else◌,
  is_empty, is_some_and, Result, ok, ensure, ◌>>◌,
}
use webex_generic_account_bo.Text.{
  Text, text, text_eq, contains_text, eq_ignore_ascii_case, to_ascii_lowercase, strip_prefix,
  is_whitespace, trim, is_blank,
}

pub data ConfigCommand : Type 0 where
  status pull reload sync : ConfigCommand

unfoldable pub parse_config_command : Text → Option ConfigCommand
parse_config_command input =
    let s = trim input in
    if text_eq s (text "/config status")
    then some status
    else if text_eq s (text "/config pull")
    then some pull
    else if text_eq s (text "/config reload")
    then some reload
    else if text_eq s (text "/config sync")
    then some sync
    else none

-- Whether a text begins with white space.
unfoldable pub starts_with_whitespace : Text → Bool
starts_with_whitespace [] = false
starts_with_whitespace (c ∷ s) = is_whitespace c

unfoldable pub is_config_command_namespace : Text → Bool
unfolding starts_with_whitespace
is_config_command_namespace input =
    let s = trim input in
    text_eq s (text "/config")
    || is_some_and starts_with_whitespace (strip_prefix (text "/config") s)

pub record ConfigCommandsConfig : Type 0 where
  pub room_id : Text
  pub allowed_person_ids : List Text
  pub allowed_person_emails : List Text
  pub allowed_commands : List ConfigCommand

-- What `validate` refuses, by the message of its `anyhow!`.
pub data CommandsError : Type 0 where
  surrounding_whitespace duplicate_values no_allowed_sender : CommandsError
  no_allowed_command duplicate_commands not_deployable : CommandsError

unfoldable pub command_eq : ConfigCommand → ConfigCommand → Bool
command_eq status status = true
command_eq pull pull = true
command_eq reload reload = true
command_eq sync sync = true
command_eq _ _ = false

unfoldable pub command_in : ConfigCommand → List ConfigCommand → Bool
unfolding command_eq
command_in c [] = false
command_in c (d ∷ ds) = command_eq c d || command_in c ds

-- `value.trim().is_empty() || value.trim() != value`.
unfoldable pub is_trimmed_value : Text → Bool
is_trimmed_value v = not (is_blank v) && text_eq (trim v) v

unfoldable pub deduplication_key : Bool → Text → Text
deduplication_key case_insensitive v = if case_insensitive then to_ascii_lowercase v else v

-- The loop of `validate_string_list`; `seen` is the hash set.
unfoldable pub validate_string_list : Bool → List Text → List Text → Result CommandsError (Unit {0})
validate_string_list ci seen [] = ok tt
validate_string_list ci seen (v ∷ vs) =
    ensure (is_trimmed_value v) surrounding_whitespace
    >> ensure (not (contains_text (deduplication_key ci v) seen)) duplicate_values
    >> validate_string_list ci (deduplication_key ci v ∷ seen) vs

-- The loop over `allowed_commands` with its hash set.
unfoldable pub no_duplicate_commands : List ConfigCommand → List ConfigCommand → Bool
no_duplicate_commands seen [] = true
no_duplicate_commands seen (c ∷ cs) = not (command_in c seen) && no_duplicate_commands (c ∷ seen) cs

unfoldable pub is_deployable : ConfigCommand → Bool
is_deployable reload = false
is_deployable sync = false
is_deployable _ = true

unfoldable pub all_deployable : List ConfigCommand → Bool
unfolding is_deployable
all_deployable [] = true
all_deployable (c ∷ cs) = is_deployable c && all_deployable cs

unfoldable pub validate : ConfigCommandsConfig → Result CommandsError (Unit {0})
validate c =
    ensure (is_trimmed_value c.room_id) surrounding_whitespace
    >> validate_string_list false [] c.allowed_person_ids
    >> validate_string_list true [] c.allowed_person_emails
    >> ensure (not (is_empty c.allowed_person_ids && is_empty c.allowed_person_emails))
        no_allowed_sender
    >> ensure (not (is_empty c.allowed_commands)) no_allowed_command
    >> ensure (no_duplicate_commands [] c.allowed_commands) duplicate_commands
    >> ensure (all_deployable c.allowed_commands) not_deployable

unfoldable pub sender_allowed : ConfigCommandsConfig → Option Text → Option Text → Bool
sender_allowed c person_id person_email =
    is_some_and (λ p. contains_text p c.allowed_person_ids) person_id
    || is_some_and (λ e. any (λ a. eq_ignore_ascii_case a e) c.allowed_person_emails) person_email

unfoldable pub command_allowed : ConfigCommandsConfig → ConfigCommand → Bool
command_allowed c command = command_in command c.allowed_commands
