-- ===== src/Checks/Texts.antt =====
-- Commands, policies, markers and replies, at concrete texts.
use webex_generic_account_bo.Base.{
  ◌+◌, ◌≤◌, ◌<◌, ◌≡◌, ◌≢◌, ◌↔◌, refl, inl, true, false, All, none, some, [], ◌∷◌, ◌++◌, length,
  arith,
}
use webex_generic_account_bo.Text.{
  Text, text, contains_text, contains, join_with, byte_len, as_bytes, encode_char, trim,
}
use webex_generic_account_bo.Text.Utf8.{IsScalar}
use webex_generic_account_bo.ConfigCommands
use webex_generic_account_bo.ConfigCommands.{parse_config_command, is_config_command_namespace}
use webex_generic_account_bo.ConfigCommands.Parsing.{parse_config_command_iff, command_text}
use webex_generic_account_bo.Config.{RoomPolicy}
use webex_generic_account_bo.Webex.{Message}
use webex_generic_account_bo.Policy.{should_trigger, sender_allowed, matched}
use webex_generic_account_bo.Policy.Trigger.{Fires, should_trigger_iff}
use webex_generic_account_bo.Markers.{
  decode_marker_hex, marker_hex, marker_message_ids_from_body, hidden_marker_comment, reply_marker,
  reply_matches_marker, reply_body, bytes_to_hex, hex_digit,
}
use webex_generic_account_bo.Markers.RoundTrip.{
  decode_marker_hex-marker_hex, marker_message_ids-reply_marker,
}
use webex_generic_account_bo.Markers.Matching.{reply_matches_marker-prefix}
use webex_generic_account_bo.Reply.{
  prepare_reply_markdown, reply_limit_chars, forward_prefix, forward_suffix,
}
use webex_generic_account_bo.Reply.Bounds.{length-prepare_reply_markdown}
use webex_generic_account_bo.Reply.Mentions.{prepare_reply_markdown_mentions_nobody}
use webex_generic_account_bo.Checks.Samples.{source_room, ann_asks}

abbrev typed : Text
typed = text "  /config pull "

parse_config_command_iff_example :
    (parse_config_command typed ≡ some ConfigCommands.pull)
    ↔ (trim typed ≡ command_text ConfigCommands.pull)
parse_config_command_iff_example = parse_config_command_iff typed ConfigCommands.pull

should_trigger_iff_example : (should_trigger source_room ann_asks (some (text "bot")) ≡ matched) ↔ (
    (sender_allowed source_room ann_asks ≡ true)
    × Fires source_room.trigger source_room ann_asks (some (text "bot")))
should_trigger_iff_example = should_trigger_iff source_room ann_asks (some (text "bot"))

abbrev closed_room : RoomPolicy
closed_room = record source_room { allowed_person_ids = [] }

-- The ID "aé".
abbrev id : Text
id = 97 ∷ 233 ∷ []

id-IsScalar : All IsScalar id
id-IsScalar = (inl (omega arith), (inl (omega arith), tt))

id-nonempty : id ≢ []
id-nonempty p = cc

decode_marker_hex-marker_hex_example : decode_marker_hex (marker_hex id) ≡ some id
decode_marker_hex-marker_hex_example = decode_marker_hex-marker_hex id id-IsScalar id-nonempty

marker_message_ids-reply_marker_example :
    contains_text id (
      marker_message_ids_from_body
        (text "Fixed." ++ (text "\n\n" ++ hidden_marker_comment (reply_marker id)))
        (text "wgb-ref:"))
    ≡ true
marker_message_ids-reply_marker_example =
    marker_message_ids-reply_marker (text "Fixed.") id id-IsScalar id-nonempty

-- The bot's reply to a message whose ID goes on.
abbrev reply : Message
reply = record {
  id = some (text "r");
  room_id = some (text "O");
  parent_id = none;
  person_id = some (text "bot");
  person_email = none;
  body_text = none;
  markdown =
      some (
        text "Fixed." ++ (text "\n\n" ++ hidden_marker_comment (reply_marker (id ++ text "more"))));
  html = none;
  mentioned_people = [];
  created = none;
}

reply_matches_marker-prefix_example :
    reply_matches_marker reply (reply_marker id) (some (text "bot")) ≡ true
unfolding reply_body text join_with
reply_matches_marker-prefix_example =
    reply_matches_marker-prefix reply (text "bot") (text "Fixed.") id (text "more") refl refl

id-short : byte_len id ≤ 1024
unfolding byte_len as_bytes encode_char
id-short = omega arith

length-prepare_reply_markdown_example :
    length (prepare_reply_markdown (text "Fixed.") (reply_marker id)) ≤ reply_limit_chars
length-prepare_reply_markdown_example = length-prepare_reply_markdown (text "Fixed.") id id-short

frame-short :
    byte_len (forward_prefix ann_asks (text "S") (text "m"))
      + byte_len (forward_suffix (reply_marker id))
    < 4000
unfolding byte_len as_bytes encode_char forward_prefix forward_suffix hidden_marker_comment
    reply_marker marker_hex bytes_to_hex hex_digit text
frame-short = omega arith

prepare_reply_markdown_mentions_nobody_example :
    contains (text "<@") (prepare_reply_markdown (text "ask <@ann>") (reply_marker id)) ≡ false
prepare_reply_markdown_mentions_nobody_example =
    prepare_reply_markdown_mentions_nobody (text "ask <@ann>") id
