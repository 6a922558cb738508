-- ===== src/Markers/RoundTrip.antt =====
-- From a message ID to its marker and back (src/main.rs).
use webex_generic_account_bo.Base.{
  ℕ, zero, suc, ◌+◌, ◌-◌, ◌/◌, ◌%◌, ◌≤◌, ◌<◌, ◌≡◌, ◌≢◌, refl, sym, subst, ap, ◌∙◌, inl, inr, true,
  false, some, List, [], ◌∷◌, ◌++◌, length, length-append, All, is_empty, arith, Option-cases,
}
use webex_generic_account_bo.Text.{
  Text, text, as_bytes, encode_char, IsScalar, strip_prefix, contains_text, text_eq_refl,
}
use webex_generic_account_bo.Text.Utf8.{from_utf8-as_bytes}
use webex_generic_account_bo.Markers.Defs.{
  hex_digit, bytes_to_hex, marker_hex, reply_marker, hidden_marker_comment, hex_value, is_hexdigit,
  take_hex, hex_to_bytes, decode_marker_hex, push_id, scan_markers, marker_message_ids_from_body,
}

abbrev IsByte : ℕ → Type 0
IsByte b = b < 256

hex_value-hex_digit : (d : ℕ) → d < 16 → hex_value (hex_digit d) ≡ some d
unfolding hex_value hex_digit
hex_value-hex_digit d h = ground arith

hex_to_bytes-bytes_to_hex : (bs : List ℕ) → All IsByte bs → hex_to_bytes (bytes_to_hex bs) ≡ some bs
unfolding hex_to_bytes bytes_to_hex
hex_to_bytes-bytes_to_hex [] h = refl
hex_to_bytes-bytes_to_hex (b ∷ bs) h =
    rw
      (
        hex_value-hex_digit (b / 16) (omega arith),
        hex_value-hex_digit (b % 16) (omega arith),
        hex_to_bytes-bytes_to_hex bs h.1,
      )
      (ground arith)

All-append : (xs ys : List ℕ) → All IsByte xs → All IsByte ys → All IsByte (xs ++ ys)
All-append [] ys h k = k
All-append (x ∷ xs) ys h k = (h.0, All-append xs ys h.1 k)

encode_char-IsByte : (c : ℕ) → IsScalar c → All IsByte (encode_char c)
unfolding encode_char
encode_char-IsByte c h = ground arith

as_bytes-IsByte : (s : Text) → All IsScalar s → All IsByte (as_bytes s)
unfolding as_bytes
as_bytes-IsByte [] h = tt
as_bytes-IsByte (c ∷ s) h =
    All-append (encode_char c) (as_bytes s) (encode_char-IsByte c h.0) (as_bytes-IsByte s h.1)

is_empty-marker_hex : (c : ℕ) (s : Text) → is_empty (marker_hex (c ∷ s)) ≡ false
unfolding marker_hex as_bytes encode_char bytes_to_hex
is_empty-marker_hex c s = ground arith

-- The hexadecimal form of a message ID decodes to that ID, for every ID of Unicode scalar values
-- that is not empty.
pub decode_marker_hex-marker_hex :
    (id : Text) → All IsScalar id → id ≢ [] → decode_marker_hex (marker_hex id) ≡ some id
unfolding decode_marker_hex
decode_marker_hex-marker_hex [] h n = absurd (n refl)
decode_marker_hex-marker_hex (c ∷ s) h n = rw (is_empty-marker_hex c s) (
    unfold marker_hex in
    rw (hex_to_bytes-bytes_to_hex (as_bytes (c ∷ s)) (as_bytes-IsByte (c ∷ s) h))
      (from_utf8-as_bytes (c ∷ s) h))

-- A text that ends in hexadecimal digits followed by something else.
abbrev AllHex : Text → Type 0
AllHex s = All (λ c. is_hexdigit c ≡ true) s

bytes_to_hex-AllHex : (bs : List ℕ) → All IsByte bs → AllHex (bytes_to_hex bs)
unfolding bytes_to_hex is_hexdigit
bytes_to_hex-AllHex [] h = tt
bytes_to_hex-AllHex (b ∷ bs) h = (
  ground (arith, hex_value-hex_digit (b / 16)),
  (ground (arith, hex_value-hex_digit (b % 16)), bytes_to_hex-AllHex bs h.1),
)

take_hex-append :
    (h : Text) (c : ℕ) (s : Text) → AllHex h → is_hexdigit c ≡ false → take_hex (h ++ c ∷ s) ≡ h
unfolding take_hex
take_hex-append [] c s a n = ground arith
take_hex-append (d ∷ h) c s a n = ground (arith, a.0, take_hex-append h c s a.1 n)

take_hex-before :
    (v : Text) (c : ℕ) (s : Text) → is_hexdigit c ≡ false → take_hex (v ++ c ∷ s) ≡ take_hex v
unfolding take_hex
take_hex-before [] c s n = ground arith
take_hex-before (d ∷ v) c s n = ground (arith, take_hex-before v c s n)

length-take_hex : (v : Text) → length (take_hex v) ≤ length v
unfolding take_hex
length-take_hex [] = omega arith
length-take_hex (d ∷ v) = ground (arith, length-take_hex v)

-- A match of a prefix that begins before a character foreign to it ends before that character.
strip_prefix-before :
    (p v : Text) (c : ℕ) (s r : Text)
    → All (λ d. d ≢ c) p
    → strip_prefix p (v ++ c ∷ s) ≡ some r
    → (w : Text) × (v ≡ p ++ w) × (r ≡ w ++ c ∷ s)
unfolding strip_prefix
strip_prefix-before [] v c s r a h = (v, refl, ground arith)
strip_prefix-before (d ∷ p) [] c s r a h = absurd (ground (arith, a.0))
strip_prefix-before (d ∷ p) (e ∷ v) c s r a h =
    let rest : strip_prefix p (v ++ c ∷ s) ≡ some r = ground arith in
    let (w, ev, er) = strip_prefix-before p v c s r a.1 rest in (w, ground arith, er)

abbrev wgb_ref : Text
wgb_ref = text "wgb-ref:"

wgb_ref-one_line : All (λ d. d ≢ 10) wgb_ref
unfolding text
wgb_ref-one_line = omega arith

length-wgb_ref : length wgb_ref ≡ 8
unfolding text
length-wgb_ref = refl

skip-le :
    (v w s r : Text)
    → v ≡ wgb_ref ++ w
    → r ≡ w ++ 10 ∷ s
    → suc (length wgb_ref - 1 + length (take_hex r)) ≤ length v
unfolding is_hexdigit hex_value
skip-le v w s r ev er =
    rw (er, take_hex-before w 10 s refl, ev)
      (omega (arith, length-append wgb_ref w, length-take_hex w, length-wgb_ref))

-- What the visible text leaves to scan is the same scan of the footer, with some IDs collected.
scan_markers-before :
    (v : Text) (ids : List Text) (skip : ℕ) (s : Text)
    → skip ≤ length v
    → (ids' : List Text) × (scan_markers wgb_ref ids skip (v ++ 10 ∷ s)
        ≡ scan_markers wgb_ref ids' 0 (10 ∷ s))
unfolding scan_markers
scan_markers-before [] ids zero s h = (ids, refl)
scan_markers-before [] ids (suc k) s h = absurd (omega arith)
scan_markers-before (c ∷ v) ids (suc k) s h = scan_markers-before v ids k s (omega arith)
scan_markers-before (c ∷ v) ids zero s h =
    elim (Option-cases (strip_prefix wgb_ref (c ∷ v ++ 10 ∷ s))) [
      | inl e ↦
          let (ids', eq) = scan_markers-before v ids 0 s (omega arith) in
          (ids', rw (e, scan_markers) eq)
      | inr (r, e) ↦
          let (w, ev, er) = strip_prefix-before wgb_ref (c ∷ v) 10 s r wgb_ref-one_line e in
          let (ids', eq) =
            scan_markers-before v (push_id ids (decode_marker_hex (take_hex r)))
              (length wgb_ref - 1 + length (take_hex r)) s
              (omega (arith, skip-le (c ∷ v) w s r ev er)) in
          (ids', rw (e, scan_markers) eq)
    ]

scan_markers-skip :
    (u : Text) (ids : List Text) (s : Text)
    → scan_markers wgb_ref ids (length u) (u ++ s) ≡ scan_markers wgb_ref ids 0 s
unfolding scan_markers
scan_markers-skip [] ids s = refl
scan_markers-skip (c ∷ u) ids s = scan_markers-skip u ids s

footer_end :
    (hex : Text) (ids : List Text)
    → scan_markers wgb_ref ids (7 + length hex) (text "gb-ref:" ++ hex ++ text " -->") ≡ ids
unfolding scan_markers text strip_prefix
footer_end hex ids =
    subst (λ k. scan_markers wgb_ref ids k (text "gb-ref:" ++ hex ++ text " -->") ≡ ids)
      (length-append (text "gb-ref:") hex)
      (scan_markers-skip (text "gb-ref:" ++ hex) ids (text " -->"))

-- The scan of a footer that holds one marker.
scan_markers-footer :
    (hex id : Text) (ids : List Text)
    → AllHex hex
    → decode_marker_hex hex ≡ some id
    → scan_markers wgb_ref ids 0 (text "\n\n<!-- wgb-ref:" ++ hex ++ text " -->")
      ≡ push_id ids (some id)
unfolding scan_markers text strip_prefix
scan_markers-footer hex id ids a d =
    let rest : Text = text "gb-ref:" ++ hex ++ text " -->" in
    ap (λ t. scan_markers wgb_ref (push_id ids (decode_marker_hex t)) (7 + length t) rest)
      (take_hex-append hex 32 (45 ∷ 45 ∷ 62 ∷ []) a (unfold is_hexdigit hex_value in refl))
    ∙ ap (λ o. scan_markers wgb_ref (push_id ids o) (7 + length hex) rest) d
    ∙ footer_end hex (push_id ids (some id))

contains_text-append_self : (ids : List Text) (id : Text) → contains_text id (ids ++ id ∷ []) ≡ true
unfolding contains_text
contains_text-append_self [] id = rw text_eq_refl
contains_text-append_self (s ∷ ids) id = ground (arith, contains_text-append_self ids id)

contains_text-push_id :
    (ids : List Text) (id : Text) → contains_text id (push_id ids (some id)) ≡ true
unfolding push_id
contains_text-push_id ids id = ground (arith, contains_text-append_self ids id)

-- Whatever the visible text of a reply is, also one that imitates a marker, the message ID of the
-- hidden marker below it is among the IDs that the bot reads back, if that ID is of Unicode scalar
-- values and not empty.
pub marker_message_ids-reply_marker :
    (visible id : Text)
    → All IsScalar id
    → id ≢ []
    → contains_text id (
        marker_message_ids_from_body
          (visible ++ (text "\n\n" ++ hidden_marker_comment (reply_marker id)))
          (text "wgb-ref:"))
      ≡ true
unfolding marker_message_ids_from_body hidden_marker_comment reply_marker text marker_hex
marker_message_ids-reply_marker visible id h n =
    let hex = marker_hex id in
    let tail : Text = text "\n<!-- wgb-ref:" ++ hex ++ text " -->" in
    let (ids, e) = scan_markers-before visible [] 0 tail (omega arith) in
    let f =
      scan_markers-footer hex id ids (bytes_to_hex-AllHex (as_bytes id) (as_bytes-IsByte id h))
        (decode_marker_hex-marker_hex id h n) in
    subst (λ t. contains_text id t ≡ true) (sym (e ∙ f)) (contains_text-push_id ids id)
