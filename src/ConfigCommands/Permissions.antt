-- ===== src/ConfigCommands/Permissions.antt =====
-- What a validated permission table lets through (src/config_commands.rs).
use webex_generic_account_bo.Base.{◌≡◌, refl, true, false, List, [], ◌∷◌, arith, is_ok}
use webex_generic_account_bo.ConfigCommands.Defs.{
  ConfigCommand, reload, sync, ConfigCommandsConfig, command_eq, command_in, is_deployable,
  all_deployable, validate, command_allowed,
}

deployable_only :
    (c : ConfigCommand) (cs : List ConfigCommand)
    → is_deployable c ≡ false
    → all_deployable cs ≡ true
    → command_in c cs ≡ false
unfolding command_in all_deployable command_eq is_deployable
deployable_only c [] p q = refl
deployable_only c (d ∷ ds) p q = ground (arith, deployable_only c ds p)

validated :
    (k : ConfigCommandsConfig)
    → is_ok (validate k) ≡ true
    → all_deployable k.allowed_commands ≡ true
unfolding validate
validated k h = ground arith

-- A table that passes validation allows neither `/config reload` nor `/config sync`.
pub validated_table_denies_undeployable :
    (k : ConfigCommandsConfig)
    → is_ok (validate k) ≡ true
    → (command_allowed k reload ≡ false) × (command_allowed k sync ≡ false)
unfolding command_allowed is_deployable
validated_table_denies_undeployable k h = (
  deployable_only reload k.allowed_commands refl (validated k h),
  deployable_only sync k.allowed_commands refl (validated k h),
)
