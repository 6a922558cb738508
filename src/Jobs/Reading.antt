-- ===== src/Jobs/Reading.antt =====
-- What is read back of a job file (src/message_jobs.rs).
use webex_generic_account_bo.Base.{
  ℕ, suc, ◌≡◌, ◌≢◌, refl, sym, ap, ◌∙◌, subst, Bool, true, false, Option, none, some, List, Result,
  ok, err, ensure, ◌>>◌, arith, take, take_all,
}
use webex_generic_account_bo.Text.{Text}
use webex_generic_account_bo.Jobs.Records.{
  Codec, JobError, MessageJobRecord, not_found, invalid, validate_record, check_message_id,
  validate_message_event, encode_valid, sized, encode_message_job_record, accept_canonical,
  decode_valid, decode_parsed, decode_message_job_record, max_message_job_record_bytes,
}
use webex_generic_account_bo.Jobs.Disk.{
  File, Jobs, Env, J, next, lift, find_file, links, query, on_query, open_file, read_bytes, called,
}
use webex_generic_account_bo.Jobs.Files.{
  finish_read, read_body, read_linked, metadata, validate_job_file_metadata, check_size,
  check_unchanged,
}

-- An answer that is the decoded content of the file, or an error other than `NotFound`.
pub record Reads (c : Codec) (f : File) (out : Result JobError MessageJobRecord × Jobs)
    : Type 0 where
  pub value : (q : MessageJobRecord) → out.0 ≡ ok q → decode_message_job_record c f.bytes ≡ ok q
  pub present : out.0 ≢ err not_found

module _ (c : Codec) (f : File) where
  next-Reads :
      {A : Type 0} (r : Result JobError A) (s : Jobs) (k : A → J MessageJobRecord)
      → r ≢ err not_found
      → ((a : A) → r ≡ ok a → Reads c f (k a s))
      → Reads c f (next r s k)
  next-Reads (ok a) s k n h = h a refl
  next-Reads (err e) s k n h = record { value = λ q p. cc; present = λ p. n (cc) }

  query-Reads :
      {A : Type 0} (fault : Option ℕ) (answer : List File → Result JobError A) (s : Jobs) (a : A)
      (k : A → J MessageJobRecord)
      → answer s.files ≡ ok a
      → ((t : Jobs) → t.files ≡ s.files → Reads c f (k a t))
      → let out = on_query fault answer s in Reads c f (next out.0 out.1 k)
  unfolding on_query
  query-Reads none answer s a k p h =
      subst (λ r. Reads c f (next r (called s s.files) k)) (sym p) (h _ refl)
  query-Reads (some n) answer s a k p h = record { value = λ q e. cc; present = λ e. cc }

ensure-present : (b : Bool) (m : Text) → ensure b (invalid m) ≢ err not_found
ensure-present true m = λ p. cc
ensure-present false m = λ p. cc

ensure-true : (b : Bool) (e : JobError) → ensure b e ≡ ok tt → b ≡ true
ensure-true true e h = refl
ensure-true false e h = cc

>>-present :
    (m k : Result JobError (Unit {0}))
    → m ≢ err not_found
    → k ≢ err not_found
    → (m >> k) ≢ err not_found
>>-present (ok _) k h g = g
>>-present (err e) k h g = h

validate_record-present : (r : MessageJobRecord) → validate_record r ≢ err not_found
unfolding validate_record check_message_id validate_message_event
validate_record-present r =
    >>-present _ _
      (>>-present _ _ (>>-present _ _ (ensure-present _ _) (ensure-present _ _))
        (>>-present _ _ (ensure-present _ _) (ensure-present _ _)))
      (ensure-present _ _)

encode-present :
    (c : Codec) (r : MessageJobRecord) (v : Result JobError (Unit {0}))
    → v ≢ err not_found
    → encode_valid c r v ≢ err not_found
unfolding encode_valid sized
encode-present c r (ok _) h = λ p. ground arith
encode-present c r (err e) h = λ p. h (cc)

accept-present :
    (bytes : List ℕ) (r : MessageJobRecord) (e : Result JobError (List ℕ))
    → e ≢ err not_found
    → accept_canonical bytes r e ≢ err not_found
unfolding accept_canonical
accept-present bytes r (ok encoded) h = λ p. ground arith
accept-present bytes r (err e) h = λ p. h (cc)

decode_valid-present :
    (c : Codec) (bytes : List ℕ) (r : MessageJobRecord) (v : Result JobError (Unit {0}))
    → v ≢ err not_found
    → decode_valid c bytes r v ≢ err not_found
unfolding decode_valid encode_message_job_record
decode_valid-present c bytes r (ok _) h =
    accept-present bytes r _ (encode-present c r _ (validate_record-present r))
decode_valid-present c bytes r (err e) h = λ p. h (cc)

decode_parsed-present :
    (c : Codec) (bytes : List ℕ) (o : Option MessageJobRecord)
    → decode_parsed c bytes o ≢ err not_found
unfolding decode_parsed
decode_parsed-present c bytes none = λ p. cc
decode_parsed-present c bytes (some r) =
    decode_valid-present c bytes r _ (validate_record-present r)

module _ (env : Env) (name : Text) (f : File) where
  finish_read-Reads :
      (before : File × ℕ) (bytes : List ℕ) (s : Jobs)
      → find_file name s.files ≡ some f
      → bytes ≡ f.bytes
      → Reads env.codec f (finish_read env name before bytes s)
  unfolding finish_read metadata query decode_message_job_record check_unchanged
  finish_read-Reads before bytes s h e =
      query-Reads env.codec f (env.fault s.calls) _ s (f, links f.inode s.files) _ (rw h)
        (λ t p.
          next-Reads env.codec f (check_unchanged before (f, links f.inode s.files) bytes) t
            (λ _. lift (decode_message_job_record env.codec bytes)) (ensure-present _ _)
            (λ _ _. record {
              value = λ q d. ap (decode_message_job_record env.codec) (sym e) ∙ d;
              present = decode_parsed-present env.codec bytes (env.codec.from_slice bytes);
            }))

  read_body-Reads :
      (n m : ℕ) (s : Jobs)
      → find_file name s.files ≡ some f
      → Reads env.codec f (read_body env name n (f, m) s)
  unfolding read_body read_bytes query check_size validate_job_file_metadata
  read_body-Reads n m s h =
      next-Reads env.codec f (validate_job_file_metadata (f, m) n) s _ (ensure-present _ _) (λ _ _.
        next-Reads env.codec f (check_size f.bytes) s _ (ensure-present _ _) (λ _ small.
          let short =
            take_all (suc max_message_job_record_bytes) f.bytes
              (ground (arith, ensure-true _ _ small)) in
          query-Reads env.codec f (env.fault s.calls) _ s
            (take (suc max_message_job_record_bytes) f.bytes) _ (rw h)
            (λ t p.
              next-Reads env.codec f (check_size (take (suc max_message_job_record_bytes) f.bytes))
                t _ (ensure-present _ _)
                (λ _ _. finish_read-Reads (f, m) _ t (ap (find_file name) p ∙ h) short))))

  pub read_linked-Reads :
      (n : ℕ) (s : Jobs)
      → find_file name s.files ≡ some f
      → Reads env.codec f (read_linked env name n s)
  unfolding read_linked open_file metadata query
  read_linked-Reads n s h = query-Reads env.codec f (env.fault s.calls) _ s tt _ (rw h) (λ t p.
      query-Reads env.codec f (env.fault t.calls) _ t (f, links f.inode t.files) _
        (rw (ap (find_file name) p ∙ h))
        (λ u q. read_body-Reads n _ u (ap (find_file name) q ∙ ap (find_file name) p ∙ h)))
