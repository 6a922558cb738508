-- ===== src/Config/Separation.antt =====
-- Which rooms a validated configuration keeps apart (`BotConfig::validate` of src/config.rs).
use webex_generic_account_bo.Base.{
  ◌≡◌, refl, subst, Bool, true, false, not, ◌&&◌, ◌||◌, Option, none, some, List, [], ◌∷◌, All,
  arith, is_ok, is_some, find, keep, all, if◌then◌else◌, is_some_and,
}
use webex_generic_account_bo.Text.{Text, text_eq, is_some_text}
use webex_generic_account_bo.ConfigCommands
use webex_generic_account_bo.ConfigCommands.{ConfigCommandsConfig, command_allowed}
use webex_generic_account_bo.Config.Types.{
  RoomPolicy, BotConfig, CodexConfig, CodexConfigPatch, IsolationMode, current_user,
  ephemeral_linux_user,
}
use webex_generic_account_bo.Config.Codex.{is_ephemeral}
use webex_generic_account_bo.Config.Paths.{Host}
use webex_generic_account_bo.Config.Room.{validate_room, validate_output_room}
use webex_generic_account_bo.Config.Defs.{
  codex_for_policy, room_codex_configs, codex_configs, policy_for_room,
  followup_policies_for_event_room, all_codex_configs_use_ephemeral_linux_user, validate_rooms,
  validate_config_commands_room, validate_commands, validate,
}
use webex_generic_account_bo.Config.Facts.{validate-Validated}

-- The policy posts into a room other than its own.
unfoldable pub has_other_output : RoomPolicy → Bool
has_other_output p = is_some_and (λ o. not (text_eq o p.room_id)) p.output_room_id

output_is_other :
    (r : RoomPolicy) (o : Option Text)
    → is_ok (validate_output_room r o) ≡ true
    → is_some o ≡ true
    → is_some_and (λ x. not (text_eq x r.room_id)) o ≡ true
unfolding validate_output_room
output_is_other r none h s = absurd (ground arith)
output_is_other r (some o) h s = ground arith

room_checked :
    (r : RoomPolicy)
    → is_ok (validate_room r) ≡ true
    → (is_ok (validate_output_room r r.output_room_id) ≡ true)
      × ((r.read_only_source && not (is_some r.output_room_id)) ≡ false)
unfolding validate_room
room_checked r h = ground arith

output_if : (b s o : Bool) → (b && not s) ≡ false → (s ≡ true → o ≡ true) → (not b || o) ≡ true
output_if true true o p q = q refl
output_if true false o p q = absurd (ground arith)
output_if false s o p q = refl

room_output :
    (r : RoomPolicy)
    → is_ok (validate_room r) ≡ true
    → (not r.read_only_source || has_other_output r) ≡ true
unfolding has_other_output
room_output r h =
    output_if r.read_only_source (is_some r.output_room_id) _ (room_checked r h).1
      (output_is_other r r.output_room_id (room_checked r h).0)

rooms_output :
    (rs : List RoomPolicy)
    → is_ok (validate_rooms rs) ≡ true
    → All (λ p. (not p.read_only_source || has_other_output p) ≡ true) rs
unfolding validate_rooms
rooms_output [] h = tt
rooms_output (r ∷ rs) h = (room_output r (ground arith), rooms_output rs (ground arith))

-- In a validated configuration every policy with a read-only source room has an output room, and that
-- is another room.
pub read_only_source_has_other_output :
    (host : Host) (c : BotConfig)
    → is_ok (validate host c) ≡ true
    → All (λ p. (not p.read_only_source || has_other_output p) ≡ true) c.rooms
read_only_source_has_other_output host c h =
    rooms_output c.rooms (validate-Validated host c h).rooms_valid

not_found :
    (room : Text) (rs : List RoomPolicy)
    → is_ok (validate_config_commands_room room rs) ≡ true
    → find (λ p. text_eq p.room_id room) rs ≡ none
unfolding validate_config_commands_room
not_found room [] h = refl
not_found room (r ∷ rs) h = ground (arith, not_found room rs)

no_followup :
    (room : Text) (rs : List RoomPolicy)
    → is_ok (validate_config_commands_room room rs) ≡ true
    → keep
        (λ p. p.followup.enabled && (text_eq p.room_id room || is_some_text room p.output_room_id))
        rs
      ≡ []
unfolding validate_config_commands_room
no_followup room [] h = refl
no_followup room (r ∷ rs) h = ground (arith, no_followup room rs)

commands_checked :
    (c : BotConfig) (k : ConfigCommandsConfig)
    → is_ok (validate_commands c (some k)) ≡ true
    → (is_ok (validate_config_commands_room k.room_id c.rooms) ≡ true)
      × ((command_allowed k ConfigCommands.pull
            && not (all_codex_configs_use_ephemeral_linux_user c))
          ≡ false)
unfolding validate_commands
commands_checked c k h = ground arith

with_commands :
    (host : Host) (c : BotConfig) (k : ConfigCommandsConfig)
    → is_ok (validate host c) ≡ true
    → c.config_commands ≡ some k
    → is_ok (validate_commands c (some k)) ≡ true
with_commands host c k h p =
    subst (λ o. is_ok (validate_commands c o) ≡ true) p (validate-Validated host c h).commands_valid

-- In a validated configuration the admin room of the commands belongs to no policy: no policy is found
-- for its ID, and no follow-up policy listens or replies in it.
pub admin_room_has_no_policy :
    (host : Host) (c : BotConfig) (k : ConfigCommandsConfig)
    → is_ok (validate host c) ≡ true
    → c.config_commands ≡ some k
    → (policy_for_room c k.room_id ≡ none) × (followup_policies_for_event_room c k.room_id ≡ [])
unfolding policy_for_room followup_policies_for_event_room
admin_room_has_no_policy host c k h p =
    let q = (commands_checked c k (with_commands host c k h p)).0 in
    (not_found k.room_id c.rooms q, no_followup k.room_id c.rooms q)

is_ephemeral-mode : (m : IsolationMode) → is_ephemeral m ≡ true → m ≡ ephemeral_linux_user
unfolding is_ephemeral
is_ephemeral-mode current_user h = cc
is_ephemeral-mode ephemeral_linux_user h = refl

codex_or_default :
    (c : BotConfig) (p : RoomPolicy) (patch : Option CodexConfigPatch) (rest : List CodexConfig)
    → p.codex ≡ patch
    → is_ephemeral c.codex.isolation.mode ≡ true
    → all
        (λ x. is_ephemeral x.isolation.mode)
        (if is_some patch then codex_for_policy c p ∷ rest else rest)
      ≡ true
    → (is_ephemeral (codex_for_policy c p).isolation.mode ≡ true)
      × (all (λ x. is_ephemeral x.isolation.mode) rest ≡ true)
unfolding codex_for_policy
codex_or_default c p none rest q d h = (rw q d, h)
codex_or_default c p (some patch) rest q d h = (ground arith, ground arith)

rooms_ephemeral :
    (c : BotConfig) (rs : List RoomPolicy)
    → is_ephemeral c.codex.isolation.mode ≡ true
    → all (λ x. is_ephemeral x.isolation.mode) (room_codex_configs c rs) ≡ true
    → All (λ r. (codex_for_policy c r).isolation.mode ≡ ephemeral_linux_user) rs
unfolding room_codex_configs
rooms_ephemeral c [] d h = tt
rooms_ephemeral c (r ∷ rs) d h =
    let q = codex_or_default c r r.codex (room_codex_configs c rs) refl d h in
    (is_ephemeral-mode _ q.0, rooms_ephemeral c rs d q.1)

every_codex_is_isolated :
    (c : BotConfig)
    → all_codex_configs_use_ephemeral_linux_user c ≡ true
    → (c.codex.isolation.mode ≡ ephemeral_linux_user)
      × All (λ r. (codex_for_policy c r).isolation.mode ≡ ephemeral_linux_user) c.rooms
unfolding all_codex_configs_use_ephemeral_linux_user codex_configs
every_codex_is_isolated c h =
    let d : is_ephemeral c.codex.isolation.mode ≡ true = ground arith in
    (is_ephemeral-mode _ d, rooms_ephemeral c c.rooms d (ground (arith, d)))

-- In a validated configuration whose table allows `/config pull`, the Codex configuration of every
-- room, its own or the default one, isolates Codex under an ephemeral user, and so does the default.
pub pull_needs_ephemeral_runners :
    (host : Host) (c : BotConfig) (k : ConfigCommandsConfig)
    → is_ok (validate host c) ≡ true
    → c.config_commands ≡ some k
    → command_allowed k ConfigCommands.pull ≡ true
    → (c.codex.isolation.mode ≡ ephemeral_linux_user)
      × All (λ r. (codex_for_policy c r).isolation.mode ≡ ephemeral_linux_user) c.rooms
pull_needs_ephemeral_runners host c k h p a =
    let q = (commands_checked c k (with_commands host c k h p)).1 in
    every_codex_is_isolated c (ground (arith, q))
