-- ===== src/Reply/Defs.antt =====
-- Preparing replies and forwarded messages (src/main.rs).
use webex_generic_account_bo.Base.{
  ℕ, ◌+◌, ◌-◌, max, true, false, none, some, [], ◌∷◌, ◌++◌, map, length, take, leb, ◌==◌,
  if◌then◌else◌, unwrap_or, or,
}
use webex_generic_account_bo.Text.{
  Text, text, replace, join_with, lines, is_blank, byte_len, encode_char,
}
use webex_generic_account_bo.Policy.{trim_to_chars}
use webex_generic_account_bo.Webex.{Message, CreateMessage}
use webex_generic_account_bo.Markers.{hidden_marker_comment}

abbrev pub reply_limit_chars : ℕ
reply_limit_chars = 6000

abbrev pub forward_markdown_limit_bytes : ℕ
forward_markdown_limit_bytes = 4000

unfoldable pub sanitize_reply_markdown : Text → Text
sanitize_reply_markdown s = replace (text "<@") (text "&lt;@") s

unfoldable pub visible_limit : Text → ℕ
visible_limit footer =
    max (reply_limit_chars - (length footer + 2) - length (text "\n[truncated]")) 1

unfoldable pub prepare_reply_markdown : Text → Text → Text
unfolding visible_limit
prepare_reply_markdown markdown marker =
    let footer = hidden_marker_comment marker in
    trim_to_chars (sanitize_reply_markdown markdown) (visible_limit footer)
    ++ (text "\n\n" ++ footer)

-- The loop over `char_indices`: the characters that fit into `room` bytes.
unfoldable pub take_bytes : ℕ → Text → Text
take_bytes room [] = []
take_bytes room (c ∷ s) =
    let size = length (encode_char c) in
    elim (leb size room) [ true ↦ c ∷ take_bytes (room - size) s | false ↦ [] ]

abbrev pub truncation_suffix : Text
truncation_suffix = text "\n[truncated]"

unfoldable pub trim_to_utf8_bytes : Text → ℕ → Text
unfolding take_bytes
trim_to_utf8_bytes value max_bytes =
    if leb (byte_len value) max_bytes
    then value
    else if max_bytes == 0
    then []
    else if leb max_bytes (byte_len truncation_suffix)
    then take max_bytes truncation_suffix
    else take_bytes (max_bytes - byte_len truncation_suffix) value ++ truncation_suffix

unfoldable pub quote_line : Text → Text
quote_line line = if is_blank line then text ">" else text "> " ++ line

unfoldable pub quote_body : Text → Text
unfolding quote_line
quote_body body =
    if is_blank body
    then text "> [empty message]"
    else join_with (text "\n") (map quote_line (lines body))

unfoldable pub forward_prefix : Message → Text → Text → Text
forward_prefix m source_room_id message_id =
    text "**Forwarded Webex message for staging triage**\n\nSource room: `"
    ++ (source_room_id
        ++ (text "`\nSource message: `"
            ++ (message_id
                ++ (text "`\nSender: `"
                    ++ (unwrap_or (text "unknown") (or m.person_email m.person_id)
                        ++ text "`\n\n")))))

unfoldable pub forward_suffix : Text → Text
forward_suffix marker = text "\n\n" ++ hidden_marker_comment marker

unfoldable pub prepare_forward_markdown : Message → Text → Text → Text → Text
unfolding quote_body
prepare_forward_markdown m source_room_id message_id marker =
    let head = forward_prefix m source_room_id message_id in
    let footer = forward_suffix marker in
    let body_limit = max (forward_markdown_limit_bytes - byte_len head - byte_len footer) 1 in
    let body = sanitize_reply_markdown (unwrap_or [] (or m.markdown (or m.body_text m.html))) in
    head ++ (trim_to_utf8_bytes (quote_body body) body_limit ++ footer)

unfoldable pub existing_reply_chars : Message → ℕ
existing_reply_chars reply = length (unwrap_or [] (or reply.markdown reply.body_text))

unfoldable pub reply_markdown_message : Text → Text → Text → CreateMessage
reply_markdown_message room_id parent_id markdown = record {
  room_id = some room_id;
  parent_id = some parent_id;
  markdown = some markdown;
}

unfoldable pub top_level_markdown_message : Text → Text → CreateMessage
top_level_markdown_message room_id markdown = record {
  room_id = some room_id;
  parent_id = none;
  markdown = some markdown;
}
