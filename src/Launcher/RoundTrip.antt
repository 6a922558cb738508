-- ===== src/Launcher/RoundTrip.antt =====
-- What is encoded as a frame is decoded from it (src/launcher_protocol.rs).
use webex_generic_account_bo.Base.{
  ℕ, ◌/◌, ◌%◌, ◌^◌, ◌≤◌, ◌<◌, ◌≡◌, refl, sym, ap, ◌∙◌, subst, false, Option, none, some, List, [],
  ◌∷◌, ◌++◌, length, is_empty, Result, ok, err, arith,
}
use webex_generic_account_bo.Launcher.Messages.{ProtocolError, LauncherRequest, LauncherResponse}
use webex_generic_account_bo.Launcher.Validation.{Checked, validate_request, validate_response}
use webex_generic_account_bo.Launcher.Frames.{
  Json, request_max_bytes, response_max_bytes, after_check, to_be_bytes, from_be_bytes,
  frame_payload, frame_of, or_invalid, payload_within, payload_of, encode_frame, parsed,
  decode_frame, checked_by, encode_request_frame, decode_request_frame, encode_response_frame,
  decode_response_frame,
}

be_bytes :
    (n : ℕ)
    → n < 2 ^ 32
    → from_be_bytes (n / 2 ^ 24 % 256) (n / 2 ^ 16 % 256) (n / 2 ^ 8 % 256) (n % 256) ≡ n
unfolding from_be_bytes
be_bytes n h = omega arith

frame_payload-ok :
    (max_bytes : ℕ) (too_large : ProtocolError) (payload frame : List ℕ)
    → frame_payload max_bytes too_large payload ≡ ok frame
    → (to_be_bytes (length payload) ++ payload ≡ frame)
      × (is_empty payload ≡ false)
      × (length payload ≤ max_bytes)
      × (length payload < 2 ^ 32)
unfolding frame_payload
frame_payload-ok max_bytes too_large payload frame h = ground arith

not_empty : (payload : List ℕ) → is_empty payload ≡ false → 0 < length payload
not_empty [] h = absurd (ground arith)
not_empty (b ∷ bs) h = omega arith

payload_within-ok :
    (max_bytes n : ℕ) (too_large : ProtocolError) (payload : List ℕ)
    → n ≡ length payload
    → 0 < length payload
    → length payload ≤ max_bytes
    → payload_within max_bytes too_large n payload ≡ ok payload
unfolding payload_within
payload_within-ok max_bytes n too_large payload e p h = ground arith

-- What is put in a frame is taken out of it.
payload_of-frame_payload :
    (max_bytes : ℕ) (too_large : ProtocolError) (payload frame : List ℕ)
    → frame_payload max_bytes too_large payload ≡ ok frame
    → payload_of max_bytes too_large frame ≡ ok payload
unfolding payload_of to_be_bytes
payload_of-frame_payload max_bytes too_large payload frame h =
    let facts = frame_payload-ok max_bytes too_large payload frame h in
    subst (λ f. payload_of max_bytes too_large f ≡ ok payload) facts.0
      (payload_within-ok max_bytes _ too_large payload (be_bytes (length payload) facts.3)
        (not_empty payload facts.1) facts.2)

module _ {A : Type 0} (json : Json A) (max_bytes : ℕ) (too_large invalid_json : ProtocolError)
    (back : (a : A) (bytes : List ℕ)
      → json.to_vec a ≡ some bytes
      → json.from_slice bytes ≡ some a) where
  decode_frame-encoded :
      (a : A) (o : Option (List ℕ)) (frame : List ℕ)
      → json.to_vec a ≡ o
      → frame_of max_bytes too_large (or_invalid invalid_json o) ≡ ok frame
      → decode_frame json max_bytes too_large invalid_json frame ≡ ok a
  unfolding decode_frame
  decode_frame-encoded a none frame e h = cc
  decode_frame-encoded a (some payload) frame e h =
      ap (parsed json max_bytes too_large invalid_json)
        (payload_of-frame_payload max_bytes too_large payload frame h)
      ∙ ap (or_invalid invalid_json) (back a payload e)

  decode_frame-encode_frame :
      (a : A) (frame : List ℕ)
      → encode_frame json max_bytes too_large invalid_json a ≡ ok frame
      → decode_frame json max_bytes too_large invalid_json frame ≡ ok a
  unfolding encode_frame
  decode_frame-encode_frame a frame h = decode_frame-encoded a (json.to_vec a) frame refl h

after_check-ok :
    {A : Type 0} (c : Checked) (r : Result ProtocolError A) (a : A)
    → after_check c r ≡ ok a
    → (c ≡ ok tt) × (r ≡ ok a)
after_check-ok (ok _) r a h = (refl, h)
after_check-ok (err e) r a h = cc

checked_by-ok :
    {A : Type 0} (check : A → Checked) (r : Result ProtocolError A) (a : A)
    → r ≡ ok a
    → check a ≡ ok tt
    → checked_by check r ≡ ok a
checked_by-ok check r a e c = subst (λ r. checked_by check r ≡ ok a) (sym e) (rw c refl)

-- A request whose frame can be encoded, so a valid one that is not too large, is what the launcher
-- decodes from that frame, given that the JSON reader reads back what the JSON writer writes.
pub decode_request_frame-encode_request_frame :
    (json : Json LauncherRequest)
    → ((a : LauncherRequest) (bytes : List ℕ)
        → json.to_vec a ≡ some bytes
        → json.from_slice bytes ≡ some a)
    → (request : LauncherRequest) (frame : List ℕ) → encode_request_frame json request ≡ ok frame
    → decode_request_frame json frame ≡ ok request
unfolding encode_request_frame decode_request_frame
decode_request_frame-encode_request_frame json back request frame h =
    let facts = after_check-ok (validate_request request) _ frame h in
    checked_by-ok validate_request _ request
      (decode_frame-encode_frame json request_max_bytes ProtocolError.request_too_large
        ProtocolError.invalid_request_json back request frame facts.1)
      facts.0

-- A response whose frame can be encoded is what the bot decodes from that frame, given that the JSON
-- reader reads back what the JSON writer writes.
pub decode_response_frame-encode_response_frame :
    (json : Json LauncherResponse)
    → ((a : LauncherResponse) (bytes : List ℕ)
        → json.to_vec a ≡ some bytes
        → json.from_slice bytes ≡ some a)
    → (response : LauncherResponse) (frame : List ℕ)
    → encode_response_frame json response ≡ ok frame
    → decode_response_frame json frame ≡ ok response
unfolding encode_response_frame decode_response_frame
decode_response_frame-encode_response_frame json back response frame h =
    let facts = after_check-ok (validate_response response) _ frame h in
    checked_by-ok validate_response _ response
      (decode_frame-encode_frame json response_max_bytes ProtocolError.response_too_large
        ProtocolError.invalid_response_json back response frame facts.1)
      facts.0
