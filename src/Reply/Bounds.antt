-- ===== src/Reply/Bounds.antt =====
-- The limits on what the bot posts (src/main.rs).
use webex_generic_account_bo.Base.{
  ℕ, ◌+◌, ◌-◌, ◌*◌, ◌≤◌, ◌<◌, max, ◌≡◌, refl, List, [], ◌∷◌, ◌++◌, length, length-append, All,
  unwrap_or, or, arith,
}
use webex_generic_account_bo.Text.{Text, text, byte_len, as_bytes, encode_char}
use webex_generic_account_bo.Text.Utf8.{
  byte_len-append, byte_len-cons, byte_len-nil, byte_len-ascii,
}
use webex_generic_account_bo.Policy.{trim_to_chars}
use webex_generic_account_bo.Policy.Trimming.{length-trim_to_chars}
use webex_generic_account_bo.Webex.{Message}
use webex_generic_account_bo.Markers.{hidden_marker_comment, reply_marker, marker_hex, bytes_to_hex}
use webex_generic_account_bo.Reply.Defs.{
  reply_limit_chars, visible_limit, prepare_reply_markdown, sanitize_reply_markdown, take_bytes,
  truncation_suffix, trim_to_utf8_bytes, forward_prefix, forward_suffix, quote_body,
  prepare_forward_markdown, forward_markdown_limit_bytes,
}

length-fit :
    (markdown marker : Text)
    → length (hidden_marker_comment marker) ≤ 5985
    → length (prepare_reply_markdown markdown marker) ≤ reply_limit_chars
unfolding prepare_reply_markdown text
length-fit markdown marker h =
    let footer = hidden_marker_comment marker in
    let shown = trim_to_chars (sanitize_reply_markdown markdown) (visible_limit footer) in
    omega (
      arith,
      length-append shown (text "\n\n" ++ footer),
      length-trim_to_chars (sanitize_reply_markdown markdown) (visible_limit footer),
    )

length-bytes_to_hex : (bs : List ℕ) → length (bytes_to_hex bs) ≡ 2 * length bs
unfolding bytes_to_hex
length-bytes_to_hex [] = refl
length-bytes_to_hex (b ∷ bs) = omega (arith, length-bytes_to_hex bs)

length-comment :
    (id : Text) → length (hidden_marker_comment (reply_marker id)) ≡ 17 + 2 * byte_len id
unfolding hidden_marker_comment reply_marker marker_hex text byte_len
length-comment id = omega (
  arith,
  length-append (bytes_to_hex (as_bytes id)) (text " -->"),
  length-bytes_to_hex (as_bytes id),
)

-- A prepared reply to a message has at most 6000 characters with its hidden marker, whatever the
-- text is, if the message ID has at most 1024 bytes.
pub length-prepare_reply_markdown :
    (markdown id : Text)
    → byte_len id ≤ 1024
    → length (prepare_reply_markdown markdown (reply_marker id)) ≤ reply_limit_chars
length-prepare_reply_markdown markdown id h =
    length-fit markdown (reply_marker id) (omega (arith, length-comment id))

byte_len-take_bytes : (room : ℕ) (s : Text) → byte_len (take_bytes room s) ≤ room
unfolding take_bytes
byte_len-take_bytes room [] = omega (arith, byte_len-nil)
byte_len-take_bytes room (c ∷ s) =
    let size = length (encode_char c) in
    ground (
      arith,
      byte_len-nil,
      byte_len-cons c (take_bytes (room - size) s),
      byte_len-take_bytes (room - size) s,
    )

suffix-ascii : All (λ c. c < 0x80) truncation_suffix
unfolding text
suffix-ascii = omega arith

-- The result of `trim_to_utf8_bytes` has at most the given number of bytes.
pub byte_len-trim_to_utf8_bytes : (s : Text) (n : ℕ) → byte_len (trim_to_utf8_bytes s n) ≤ n
unfolding trim_to_utf8_bytes
byte_len-trim_to_utf8_bytes s n =
    let room = n - byte_len truncation_suffix in
    ground (
      arith,
      byte_len-nil,
      byte_len-ascii n truncation_suffix suffix-ascii,
      byte_len-append (take_bytes room s) truncation_suffix,
      byte_len-take_bytes room s,
    )

-- A forwarded message has at most 4000 bytes, if its heading and its marker leave room for one.
pub byte_len-prepare_forward_markdown :
    (m : Message) (room id marker : Text)
    → byte_len (forward_prefix m room id) + byte_len (forward_suffix marker) < 4000
    → byte_len (prepare_forward_markdown m room id marker) ≤ forward_markdown_limit_bytes
unfolding prepare_forward_markdown
byte_len-prepare_forward_markdown m room id marker h =
    let head = forward_prefix m room id in
    let footer = forward_suffix marker in
    let limit = max (forward_markdown_limit_bytes - byte_len head - byte_len footer) 1 in
    let body =
      quote_body (sanitize_reply_markdown (unwrap_or [] (or m.markdown (or m.body_text m.html)))) in
    omega (
      arith,
      byte_len-append head (trim_to_utf8_bytes body limit ++ footer),
      byte_len-append (trim_to_utf8_bytes body limit) footer,
      byte_len-trim_to_utf8_bytes body limit,
    )
