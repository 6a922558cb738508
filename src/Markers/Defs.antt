-- ===== src/Markers/Defs.antt =====
-- Writing, finding and decoding markers (src/main.rs).
use webex_generic_account_bo.Base.{
  ℕ, zero, suc, ◌+◌, ◌-◌, ◌*◌, ◌/◌, ◌%◌, Bool, true, false, ◌&&◌, Option, none, some, List, [], ◌∷◌,
  ◌++◌, length, ltb, leb, if◌then◌else◌, is_empty,
}
use webex_generic_account_bo.Text.{
  Text, text, contains_text, strip_prefix, contains, join_with, as_bytes, from_utf8, is_some_text,
}
use webex_generic_account_bo.Webex.{Message}

-- A lower-case hexadecimal digit.
unfoldable pub hex_digit : ℕ → ℕ
hex_digit d = if ltb d 10 then b'0' + d else b'a' + (d - 10)

-- `format!("{byte:02x}")` of each byte.
unfoldable pub bytes_to_hex : List ℕ → Text
bytes_to_hex [] = []
bytes_to_hex (b ∷ bs) = hex_digit (b / 16) ∷ hex_digit (b % 16) ∷ bytes_to_hex bs

unfoldable pub marker_hex : Text → Text
marker_hex message_id = bytes_to_hex (as_bytes message_id)

unfoldable pub reply_marker : Text → Text
reply_marker message_id = text "wgb-ref:" ++ marker_hex message_id

unfoldable pub source_marker : Text → Text
source_marker message_id = text "wgb-source-ref:" ++ marker_hex message_id

unfoldable pub hidden_marker_comment : Text → Text
hidden_marker_comment marker = text "<!-- " ++ marker ++ text " -->"

-- The value of a hexadecimal digit in either case.
unfoldable pub hex_value : ℕ → Option ℕ
hex_value c =
    if leb b'0' c && leb c b'9'
    then some (c - b'0')
    else if leb b'a' c && leb c b'f'
    then some (c - b'a' + 10)
    else if leb b'A' c && leb c b'F'
    then some (c - b'A' + 10)
    else none

unfoldable pub is_hexdigit : ℕ → Bool
unfolding hex_value
is_hexdigit c = elim (hex_value c) [ some _ ↦ true | none ↦ false ]

unfoldable pub take_hex : Text → Text
take_hex [] = []
take_hex (c ∷ s) = elim (is_hexdigit c) [ true ↦ c ∷ take_hex s | false ↦ [] ]

-- A pair of digits before the bytes that follow; a missing or odd digit fails.
unfoldable pub pair_value : Option ℕ → Option ℕ → Option (List ℕ) → Option (List ℕ)
pair_value (some a) (some b) (some bs) = some ((a * 16 + b) ∷ bs)
pair_value _ _ _ = none

unfoldable pub hex_to_bytes : Text → Option (List ℕ)
unfolding pair_value
hex_to_bytes [] = some []
hex_to_bytes (a ∷ []) = none
hex_to_bytes (a ∷ b ∷ s) = pair_value (hex_value a) (hex_value b) (hex_to_bytes s)

unfoldable pub decode_marker_hex : Text → Option Text
decode_marker_hex hex =
    if is_empty hex then none else elim (hex_to_bytes hex) [ none ↦ none | some bs ↦ from_utf8 bs ]

-- A decoded ID goes to the end of the list, unless it is there already.
unfoldable pub push_id : List Text → Option Text → List Text
push_id ids none = ids
push_id ids (some id) = if contains_text id ids then ids else ids ++ id ∷ []

-- The loop of `marker_message_ids_from_body`; `skip` counts the characters of a marker that are
-- still to be passed.
unfoldable pub scan_markers : Text → List Text → ℕ → Text → List Text
scan_markers prefix ids skip [] = ids
scan_markers prefix ids (suc skip) (c ∷ s) = scan_markers prefix ids skip s
scan_markers prefix ids zero (c ∷ s) = elim (strip_prefix prefix (c ∷ s)) [
  | some rest ↦
      scan_markers prefix (push_id ids (decode_marker_hex (take_hex rest)))
        (length prefix - 1 + length (take_hex rest)) s
  | none ↦ scan_markers prefix ids zero s
]

unfoldable pub marker_message_ids_from_body : Text → Text → List Text
unfolding scan_markers
marker_message_ids_from_body body prefix = scan_markers prefix [] 0 body

-- The fields that are present, in order.
unfoldable pub present : List (Option Text) → List Text
present [] = []
present (none ∷ os) = present os
present (some s ∷ os) = s ∷ present os

unfoldable pub reply_body : Message → Text
unfolding present
reply_body m = join_with (text "\n") (present (m.markdown ∷ m.body_text ∷ m.html ∷ []))

unfoldable pub message_contains_marker : Message → Text → Bool
message_contains_marker m prefix = contains prefix (reply_body m)

-- `require_self_message` is true at every call.
unfoldable pub marker_message_ids : Message → Text → Option Text → List Text
marker_message_ids m prefix none = []
marker_message_ids m prefix (some self_id) =
    if is_some_text self_id m.person_id
    then marker_message_ids_from_body (reply_body m) prefix
    else []

unfoldable pub reply_matches_marker : Message → Text → Option Text → Bool
reply_matches_marker reply marker none = contains marker (reply_body reply)
reply_matches_marker reply marker (some self_id) =
    is_some_text self_id reply.person_id && contains marker (reply_body reply)
