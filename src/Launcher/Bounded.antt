-- ===== src/Launcher/Bounded.antt =====
-- Bounded responses are valid (src/launcher_protocol.rs).
use mathlib.Core.List.{reverse, reverse-append}
use webex_generic_account_bo.Base.{
  ℕ, zero, suc, ◌*◌, ◌≤◌, ◌≡◌, refl, Bool, true, false, ◌&&◌, Option, Result, err, is_ok, ◌⊎◌, inl,
  inr, [], ◌∷◌, length, length-append, length-take, take, take_all, map, any, any-reverse, ok,
  ensure, arith, leb, ltb,
}
use webex_generic_account_bo.Text.{
  Text, text, trim, trim_start, trim_end, byte_len, as_bytes, encode_char,
}
use webex_generic_account_bo.Text.Utf8.{byte_len-cons, byte_len-nil}
use webex_generic_account_bo.Scheduler.{is_control}
use webex_generic_account_bo.Launcher.Messages.{
  ProtocolError, RejectionCode, RejectedResponse, CompletedResponse,
}
use webex_generic_account_bo.Launcher.Validation.{
  error_message_max_chars, validate_run_id, output_char_limit_max, output_max_bytes,
  validate_optional_run_id, validate_output_char_limit, validate_completed, validate_rejected,
  is_error_message,
}
use webex_generic_account_bo.Launcher.Frames.{
  bound_output, sanitize_char, or_rejected, bound_error_message, completed_bounded,
  rejected_bounded,
}

length-encode_char : (c : ℕ) → length (encode_char c) ≤ 4
unfolding encode_char
length-encode_char c = ground arith

byte_len-le : (s : Text) → byte_len s ≤ 4 * length s
byte_len-le [] = omega (arith, byte_len-nil)
byte_len-le (c ∷ s) = omega (arith, byte_len-cons c s, length-encode_char c, byte_len-le s)

module _ (p : ℕ → Bool) where
  any-take : (n : ℕ) (s : Text) → any p s ≡ false → any p (take n s) ≡ false
  any-take zero s h = refl
  any-take (suc n) [] h = refl
  any-take (suc n) (c ∷ s) h = ground (arith, any-take n s)

  any-trim_start : (s : Text) → any p s ≡ false → any p (trim_start s) ≡ false
  unfolding trim_start
  any-trim_start [] h = refl
  any-trim_start (c ∷ s) h = ground (arith, any-trim_start s)

  any-trim : (s : Text) → any p s ≡ false → any p (trim s) ≡ false
  unfolding trim trim_end
  any-trim s h = any-reverse p _ (any-trim_start _ (any-reverse p _ (any-trim_start s h)))

length-trim_start : (s : Text) → length (trim_start s) ≤ length s
unfolding trim_start
length-trim_start [] = omega arith
length-trim_start (c ∷ s) = ground (arith, length-trim_start s)

length-reverse : (s : Text) → length (reverse s) ≡ length s
length-reverse [] = refl
length-reverse (c ∷ s) =
    rw (reverse-append (c ∷ []) s)
      (omega (arith, length-append (reverse s) (c ∷ []), length-reverse s))

length-trim : (s : Text) → length (trim s) ≤ length s
unfolding trim trim_end
length-trim s = omega (
  arith,
  length-trim_start s,
  length-reverse (trim_start s),
  length-trim_start (reverse (trim_start s)),
  length-reverse (trim_start (reverse (trim_start s))),
)

no_control : (s : Text) → any is_control (map sanitize_char s) ≡ false
unfolding sanitize_char is_control
no_control [] = refl
no_control (c ∷ s) = ground (arith, no_control s)

short_message :
    (c : ℕ) (s : Text)
    → length (c ∷ s) ≤ error_message_max_chars
    → any is_control (c ∷ s) ≡ false
    → is_error_message (c ∷ s) ≡ true
unfolding is_error_message
short_message c s h k = ground (arith, byte_len-le (c ∷ s))

or_rejected-is_error_message :
    (s : Text)
    → length s ≤ error_message_max_chars
    → any is_control s ≡ false
    → is_error_message (or_rejected s) ≡ true
unfolding or_rejected is_error_message byte_len text as_bytes encode_char
or_rejected-is_error_message [] h k = refl
or_rejected-is_error_message (c ∷ s) h k = short_message c s h k

-- Whatever the message of an error is, the one that is sent is not empty, has at most 1024 characters
-- and 4096 bytes, and has no control character.
pub bound_error_message_is_valid :
    (message : Text) → is_error_message (bound_error_message message) ≡ true
unfolding bound_error_message
bound_error_message_is_valid message =
    let shown = take error_message_max_chars (map sanitize_char message) in
    or_rejected-is_error_message (trim shown)
      (omega
        (arith, length-trim shown, length-take error_message_max_chars (map sanitize_char message)))
      (any-trim is_control shown (
        any-take is_control error_message_max_chars (map sanitize_char message)
          (no_control message)))

rejected_with :
    (run_id : Option Text) (code : RejectionCode) (message : Text)
    (valid : Result ProtocolError (Unit {0}))
    → validate_optional_run_id run_id ≡ valid
    → ((is_ok valid ≡ true)
        × (r : RejectedResponse) × (rejected_bounded run_id code message ≡ ok r)
        × (validate_rejected r ≡ ok tt)
        × (r.run_id ≡ run_id)
        × (r.code ≡ code))
      ⊎ ((is_ok valid ≡ false) × (is_ok (rejected_bounded run_id code message) ≡ false))
unfolding rejected_bounded validate_rejected
rejected_with run_id code message (ok u) h =
    let good = bound_error_message_is_valid message in
    inl (
      refl,
      record { run_id = run_id; code = code; message = bound_error_message message },
      rw h (rw good refl),
      rw h (rw good refl),
      refl,
      refl,
    )
rejected_with run_id code message (err e) h = inr (refl, rw h refl)

-- Building a rejection fails exactly when it is given an invalid run ID. For a valid one, or none, it
-- succeeds, keeps the run ID and the code, and the response passes its own validation, whatever the
-- message is.
pub rejected_bounded_is_valid :
    (run_id : Option Text) (code : RejectionCode) (message : Text)
    → ((is_ok (validate_optional_run_id run_id) ≡ true)
        × (r : RejectedResponse) × (rejected_bounded run_id code message ≡ ok r)
        × (validate_rejected r ≡ ok tt)
        × (r.run_id ≡ run_id)
        × (r.code ≡ code))
      ⊎ ((is_ok (validate_optional_run_id run_id) ≡ false)
          × (is_ok (rejected_bounded run_id code message) ≡ false))
rejected_bounded_is_valid run_id code message =
    rejected_with run_id code message (validate_optional_run_id run_id) refl

bound_output_lem :
    (output : Text) (limit : ℕ)
    → validate_output_char_limit limit ≡ ok tt
    → bound_output output limit ≡ ok (take limit output, ltb limit (length output))
unfolding bound_output
bound_output_lem output limit k = rw k (ground (arith, take_all limit output))

short_output :
    (output : Text) (limit : ℕ)
    → validate_output_char_limit limit ≡ ok tt
    → ensure {E = ProtocolError}
        (leb (length (take limit output)) output_char_limit_max
          && leb (byte_len (take limit output)) output_max_bytes)
        ProtocolError.invalid_output
      ≡ ok tt
unfolding validate_output_char_limit
short_output output limit k =
    ground (arith, length-take limit output, byte_len-le (take limit output))

-- With a valid run ID and a limit in range, the response of a completed run holds the output up to
-- the limit in characters, says that it is truncated exactly when the output is longer, and passes
-- its own validation: for any output, however long.
pub completed_bounded_is_valid :
    (run_id output : Text) (limit : ℕ)
    → validate_run_id run_id ≡ ok tt
    → validate_output_char_limit limit ≡ ok tt
    → (r : CompletedResponse) × (completed_bounded run_id output limit ≡ ok r)
      × (validate_completed r ≡ ok tt)
      × (r.output ≡ take limit output)
      × (r.truncated ≡ ltb limit (length output))
unfolding completed_bounded validate_completed
completed_bounded_is_valid run_id output limit h k = (
  record { run_id = run_id; output = take limit output; truncated = ltb limit (length output) },
  rw (bound_output_lem output limit k) (rw k (rw h refl)),
  rw h (short_output output limit k),
  refl,
  refl,
)
