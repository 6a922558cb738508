-- ===== src/Config/Room.antt =====
-- `RoomPolicy::validate` and the validation of its parts (src/config.rs).
use webex_generic_account_bo.Base.{
  Bool, true, false, ◌&&◌, ◌||◌, not, Option, none, some, any, ◌==◌, if◌then◌else◌, is_empty,
  is_some, Result, ok, ensure, ◌>>◌,
}
use webex_generic_account_bo.Text.{Text, text_eq, is_blank, trim}
use webex_generic_account_bo.Config.Types.{
  FollowupConfig, JenkinsContextConfig, RoomPolicy, TriggerMode, prefix,
}
use webex_generic_account_bo.Config.Paths.{is_absolute}

-- What the validation of a room refuses, by the message of its `anyhow!`.
pub data RoomError : Type 0 where
  empty_room_id empty_output_room_id output_is_source output_without_forward : RoomError
  read_only_without_output forward_without_output no_sender missing_prefixes : RoomError
  bad_prefix empty_prompt : RoomError
  empty_node_bin empty_script relative_script empty_env_file relative_env_file : RoomError
  zero_jenkins_timeout zero_max_urls zero_jenkins_output : RoomError
  no_followup_trigger zero_thread_messages zero_thread_chars empty_followup_prompt : RoomError

unfoldable pub validate_jenkins : JenkinsContextConfig → Result RoomError (Unit {0})
validate_jenkins c =
    if not c.enabled
    then ok tt
    else ensure (not (is_blank c.node_bin)) empty_node_bin
      >> ensure (not (is_empty c.script)) empty_script
      >> ensure (is_absolute c.script) relative_script
      >> ensure (not (is_empty c.env_file)) empty_env_file
      >> ensure (is_absolute c.env_file) relative_env_file
      >> ensure (not (c.timeout_secs == 0)) zero_jenkins_timeout
      >> ensure (not (c.max_urls == 0)) zero_max_urls
      >> ensure (not (c.output_limit_chars == 0)) zero_jenkins_output

unfoldable pub validate_followup : FollowupConfig → Result RoomError (Unit {0})
validate_followup c =
    ensure (not (c.enabled && is_empty c.triggers)) no_followup_trigger
    >> ensure (not (c.max_thread_messages == 0)) zero_thread_messages
    >> ensure (not (c.max_thread_context_chars == 0)) zero_thread_chars
    >> ensure (not (is_blank c.prompt_template)) empty_followup_prompt

unfoldable pub is_prefix_trigger : TriggerMode → Bool
is_prefix_trigger prefix = true
is_prefix_trigger _ = false

-- The checks under `if let Some(output_room_id)`.
unfoldable pub validate_output_room : RoomPolicy → Option Text → Result RoomError (Unit {0})
validate_output_room r none = ok tt
validate_output_room r (some o) =
    ensure (not (is_blank o)) empty_output_room_id
    >> ensure (not (text_eq o r.room_id)) output_is_source
    >> ensure r.forward_source_message output_without_forward

unfoldable pub validate_jenkins_context : Option JenkinsContextConfig → Result RoomError (Unit {0})
unfolding validate_jenkins
validate_jenkins_context none = ok tt
validate_jenkins_context (some c) = validate_jenkins c

unfoldable pub validate_room : RoomPolicy → Result RoomError (Unit {0})
unfolding validate_output_room is_prefix_trigger
validate_room r =
    ensure (not (is_blank r.room_id)) empty_room_id
    >> validate_output_room r r.output_room_id
    >> ensure (not (r.read_only_source && not (is_some r.output_room_id))) read_only_without_output
    >> ensure (not (r.forward_source_message && not (is_some r.output_room_id)))
        forward_without_output
    >> ensure
        (not (
          not r.allow_all_senders
          && is_empty r.allowed_person_ids
          && is_empty r.allowed_person_emails))
        no_sender
    >> ensure (not (is_prefix_trigger r.trigger && is_empty r.prefixes)) missing_prefixes
    >> ensure (not (any (λ p. is_blank p || not (text_eq (trim p) p)) r.prefixes)) bad_prefix
    >> ensure (not (is_blank r.prompt_template)) empty_prompt
    >> validate_jenkins_context r.jenkins_context
    >> validate_followup r.followup
