-- ===== src/Jobs/Canonical.antt =====
-- The bytes of a job record (src/message_jobs.rs).
use webex_generic_account_bo.Base.{
  ℕ, ◌≤◌, ◌≡◌, ◌↔◌, sym, ap, subst, ◌∙◌, Option, none, some, List, [], ◌∷◌, ◌++◌, length, Result,
  ok, err, arith, ◌*◌,
}
use webex_generic_account_bo.Text.{text_eq_sound, text_eq_refl}
use webex_generic_account_bo.Jobs.Records.{
  Codec, MessageJobRecord, JobError, validate_record, sized, encode_valid,
  encode_message_job_record, accept_canonical, decode_valid, decode_parsed,
  decode_message_job_record, max_message_job_record_bytes,
}

-- The reader reads back every valid record that the writer has written, before the line feed that
-- ends a record.
pub record ReadsBack (c : Codec) : Type 0 where
  pub at :
      (r : MessageJobRecord)
      → validate_record r ≡ ok tt
      → c.from_slice (c.to_vec r ++ b'\n' ∷ []) ≡ some r

accept-ok :
    (bytes : List ℕ) (r q : MessageJobRecord) (e : Result JobError (List ℕ))
    → accept_canonical bytes r e ≡ ok q
    → (r ≡ q) × (e ≡ ok bytes)
unfolding accept_canonical
accept-ok bytes r q (ok encoded) h = ground (arith, text_eq_sound encoded bytes)
accept-ok bytes r q (err e) h = cc

decode_valid-ok :
    (c : Codec) (bytes : List ℕ) (r q : MessageJobRecord) (v : Result JobError (Unit {0}))
    → decode_valid c bytes r v ≡ ok q
    → encode_message_job_record c q ≡ ok bytes
unfolding decode_valid
decode_valid-ok c bytes r q (ok _) h =
    let a = accept-ok bytes r q _ h in ap (encode_message_job_record c) (sym a.0) ∙ a.1
decode_valid-ok c bytes r q (err e) h = cc

-- What is decoded has its own encoding.
pub encode-decode :
    (c : Codec) (bytes : List ℕ) (q : MessageJobRecord)
    → decode_message_job_record c bytes ≡ ok q
    → encode_message_job_record c q ≡ ok bytes
unfolding decode_message_job_record decode_parsed
encode-decode c bytes q h =
    elim (c.from_slice bytes)
        as (λ o. decode_parsed c bytes o ≡ ok q → encode_message_job_record c q ≡ ok bytes) [
          | none ↦ λ h. cc
          | some r ↦ decode_valid-ok c bytes r q (validate_record r)
        ]
      h

encode_valid-ok :
    (c : Codec) (r : MessageJobRecord) (v : Result JobError (Unit {0})) (bytes : List ℕ)
    → encode_valid c r v ≡ ok bytes
    → (v ≡ ok tt)
      × (bytes ≡ c.to_vec r ++ b'\n' ∷ [])
      × (length bytes ≤ max_message_job_record_bytes)
unfolding encode_valid sized
encode_valid-ok c r (ok _) bytes h = ground arith
encode_valid-ok c r (err e) bytes h = cc

accept-encoded :
    (bytes : List ℕ) (r : MessageJobRecord) (e : Result JobError (List ℕ))
    → e ≡ ok bytes
    → accept_canonical bytes r e ≡ ok r
unfolding accept_canonical
accept-encoded bytes r (ok encoded) h = ground (arith, text_eq_refl bytes)
accept-encoded bytes r (err e) h = cc

valid-encoded :
    (c : Codec) (bytes : List ℕ) (r : MessageJobRecord) (v : Result JobError (Unit {0}))
    → v ≡ ok tt
    → encode_message_job_record c r ≡ ok bytes
    → decode_valid c bytes r v ≡ ok r
unfolding decode_valid
valid-encoded c bytes r (ok _) p e = accept-encoded bytes r _ e
valid-encoded c bytes r (err _) p e = cc

decode-encoded :
    (c : Codec) (r : MessageJobRecord) (bytes : List ℕ) (o : Option MessageJobRecord)
    → o ≡ some r
    → validate_record r ≡ ok tt
    → encode_message_job_record c r ≡ ok bytes
    → decode_parsed c bytes o ≡ ok r
unfolding decode_parsed
decode-encoded c r bytes o p v e =
    subst (λ o. decode_parsed c bytes o ≡ ok r) (sym p) (valid-encoded c bytes r _ v e)

-- A sequence of bytes is read as a job record exactly when it is the encoding of that record, given
-- that the JSON reader reads back what the JSON writer writes: every valid record is read back, and
-- no other spelling of a record is accepted.
pub decode-encode :
    (c : Codec)
    → ReadsBack c
    → (bytes : List ℕ) (r : MessageJobRecord)
    → (decode_message_job_record c bytes ≡ ok r) ↔ (encode_message_job_record c r ≡ ok bytes)
unfolding decode_message_job_record
decode-encode c back bytes r = (
  encode-decode c bytes r,
  λ h.
      let e = encode_valid-ok c r (validate_record r) bytes h in
      decode-encoded c r bytes (c.from_slice bytes) (ap c.from_slice e.1 ∙ back.at r e.0) e.0 h,
)

-- The encoding of a job record is at most 512 KiB long.
pub length-encode :
    (c : Codec) (r : MessageJobRecord) (bytes : List ℕ)
    → encode_message_job_record c r ≡ ok bytes
    → length bytes ≤ 512 * 1024
unfolding encode_message_job_record
length-encode c r bytes h = (encode_valid-ok c r (validate_record r) bytes h).2
