-- ===== src/ConfigCommands/Parsing.antt =====
-- What the parser of the `/config` commands accepts (src/config_commands.rs).
use webex_generic_account_bo.Base.{
  ◌≡◌, refl, ap, ◌∙◌, ◌↔◌, true, Option, none, some, if◌then◌else◌, arith,
}
use webex_generic_account_bo.Text.{
  Text, text, text_eq, text_eq_sound, trim, strip_prefix, is_whitespace,
}
use webex_generic_account_bo.ConfigCommands.Defs.{
  ConfigCommand, status, pull, reload, sync, parse_config_command, is_config_command_namespace,
  starts_with_whitespace,
}

-- The one spelling of each command.
unfoldable pub command_text : ConfigCommand → Text
command_text status = text "/config status"
command_text pull = text "/config pull"
command_text reload = text "/config reload"
command_text sync = text "/config sync"

-- The parser after the input is trimmed.
abbrev parse_trimmed : Text → Option ConfigCommand
parse_trimmed s =
    if text_eq s (text "/config status")
    then some status
    else if text_eq s (text "/config pull")
    then some pull
    else if text_eq s (text "/config reload")
    then some reload
    else if text_eq s (text "/config sync")
    then some sync
    else none

parse_trimmed_sound :
    (s : Text) (c : ConfigCommand) → parse_trimmed s ≡ some c → text_eq s (command_text c) ≡ true
unfolding command_text
parse_trimmed_sound s c h = ground arith

parse_trimmed_complete : (c : ConfigCommand) → parse_trimmed (command_text c) ≡ some c
unfolding command_text text text_eq
parse_trimmed_complete status = refl
parse_trimmed_complete pull = refl
parse_trimmed_complete reload = refl
parse_trimmed_complete sync = refl

-- The parser accepts a command exactly when the trimmed input is the one spelling of that command.
pub parse_config_command_iff :
    (s : Text) (c : ConfigCommand) → (parse_config_command s ≡ some c) ↔ (trim s ≡ command_text c)
unfolding parse_config_command
parse_config_command_iff s c = (
  λ h. text_eq_sound (trim s) (command_text c) (parse_trimmed_sound (trim s) c h),
  λ h. ap parse_trimmed h ∙ parse_trimmed_complete c,
)

in_namespace :
    (s : Text) (c : ConfigCommand) → trim s ≡ command_text c → is_config_command_namespace s ≡ true
unfolding is_config_command_namespace starts_with_whitespace command_text text text_eq strip_prefix
    is_whitespace
in_namespace s status h = rw h refl
in_namespace s pull h = rw h refl
in_namespace s reload h = rw h refl
in_namespace s sync h = rw h refl

-- Every command that the parser accepts is in the `/config` namespace.
pub parsed_command_in_namespace :
    (s : Text) (c : ConfigCommand)
    → parse_config_command s ≡ some c
    → is_config_command_namespace s ≡ true
parsed_command_in_namespace s c h = in_namespace s c ((parse_config_command_iff s c).0 h)
