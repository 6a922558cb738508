-- ===== src/Checks/Store.antt =====
-- The job store and the event handler, at concrete jobs.
use webex_generic_account_bo.Base.{
  ℕ, ◌%◌, ◌≡◌, ◌↔◌, refl, ap, Bool, true, false, Option, none, some, List, [], ◌∷◌, ◌++◌, length,
  Result, ok, err, arith, ◌==◌, ensure, ◌>>◌,
}
use webex_generic_account_bo.Text.{
  Text, text, text_eq, text_eq_sound, as_bytes, encode_char, byte_len,
}
use webex_generic_account_bo.Markers.{bytes_to_hex, hex_digit}
use webex_generic_account_bo.Scheduler.{validate_message_id}
use webex_generic_account_bo.Jobs.{
  Value, null, boolean, number, string, array, object, Fields, end, field, value_eq, fields_eq,
  option_eq, event_eq, JobEvent, MessageJobRecord, Codec, JobError, check_message_id,
  validate_message_event, persisted_message_event, validate_record, new_record, File, Jobs, Env,
  enqueue_sync, load_sync, find_file, message_job_path, encode_message_job_record,
  decode_message_job_record, invalid, is_job_filename, links,
}
use webex_generic_account_bo.Jobs.Names.{IsDigest}
use webex_generic_account_bo.Jobs.Canonical.{ReadsBack, decode-encode}
use webex_generic_account_bo.Jobs.Kept.{job_files}
use webex_generic_account_bo.Jobs.Outcomes.{Outcome}
use webex_generic_account_bo.Jobs.Published.{enqueue-Outcome}
use webex_generic_account_bo.Jobs.Requests.{
  Request, enqueues, removes, restarts, SpecStep, run, replay,
}
use webex_generic_account_bo.Jobs.Refinement.{run-refines, replay-IsComplete, IsComplete}
use webex_generic_account_bo.Jobs.Loading.{queued_job_is_loaded}
use webex_generic_account_bo.Jobs.Serving.{complete_job_is_served}

unfoldable pub drop_last : List ℕ → List ℕ
drop_last [] = []
drop_last (b ∷ []) = []
drop_last (b ∷ c ∷ bs) = b ∷ drop_last (c ∷ bs)

drop_last-append : (bs : List ℕ) (b : ℕ) → drop_last (bs ++ b ∷ []) ≡ bs
unfolding drop_last
drop_last-append [] b = refl
drop_last-append (a ∷ []) b = refl
drop_last-append (a ∷ c ∷ bs) b = ap (λ r. a ∷ r) (drop_last-append (c ∷ bs) b)

-- Digests of 32 bytes.
unfoldable pub short_digest : List ℕ → List ℕ
short_digest bs =
    (length bs % 256)
    ∷ 0
    ∷ 0
    ∷ 0
    ∷ 0
    ∷ 0
    ∷ 0
    ∷ 0
    ∷ 0
    ∷ 0
    ∷ 0
    ∷ 0
    ∷ 0
    ∷ 0
    ∷ 0
    ∷ 0
    ∷ 0
    ∷ 0
    ∷ 0
    ∷ 0
    ∷ 0
    ∷ 0
    ∷ 0
    ∷ 0
    ∷ 0
    ∷ 0
    ∷ 0
    ∷ 0
    ∷ 0
    ∷ 0
    ∷ 0
    ∷ 0
    ∷ []

-- A record is written as its time and its message ID.
unfoldable pub read_record : List ℕ → Option MessageJobRecord
read_record [] = none
read_record (t ∷ bs) = some (new_record (drop_last bs) t)

abbrev pub codec : Codec
codec = record {
  to_vec = λ r. r.enqueued_at_unix_nanos ∷ r.message_id;
  from_slice = read_record;
  sha256 = short_digest;
}

pub codec-IsDigest : IsDigest codec
unfolding short_digest
codec-IsDigest = record { wide = λ bs. refl; in_range = λ bs. omega arith }

option_none : (o : Option Text) → option_eq o none ≡ true → o ≡ none
unfolding option_eq
option_none none h = refl
option_none (some s) h = cc

ensured : (b : Bool) (x : Text) → ensure b (invalid x) ≡ ok tt → b ≡ true
ensured true x h = refl
ensured false x h = cc

same_string : (v : Value) (s : Text) → value_eq v (string s) ≡ true → v ≡ string s
unfolding value_eq
same_string null s h = cc
same_string (boolean true) s h = cc
same_string (boolean false) s h = cc
same_string (number t) s h = cc
same_string (string t) s h = ap string (text_eq_sound t s h)
same_string (array xs) s h = cc
same_string (object fs) s h = cc

same_end : (fs : Fields) → fields_eq fs end ≡ true → fs ≡ end
unfolding fields_eq
same_end end h = refl
same_end (field k v fs) h = cc

same_field :
    (fs : Fields) (k s : Text)
    → fields_eq fs (field k (string s) end) ≡ true
    → fs ≡ field k (string s) end
unfolding fields_eq
same_field end k s h = cc
same_field (field j v fs) k s h = ground (arith, text_eq_sound j k, same_string v s, same_end fs)

same_object :
    (v : Value) (k s : Text)
    → value_eq v (object (field k (string s) end)) ≡ true
    → v ≡ object (field k (string s) end)
unfolding value_eq
same_object null k s h = cc
same_object (boolean true) k s h = cc
same_object (boolean false) k s h = cc
same_object (number t) k s h = cc
same_object (string t) k s h = cc
same_object (array xs) k s h = cc
same_object (object fs) k s h = ap object (same_field fs k s h)

same_event :
    (e : JobEvent) (id : Text)
    → event_eq e (persisted_message_event id) ≡ true
    → e ≡ persisted_message_event id
unfolding event_eq persisted_message_event
same_event e id h = ground (
  arith,
  text_eq_sound e.resource (text "messages"),
  text_eq_sound e.event (text "created"),
  option_none e.received_at,
  same_object e.payload (text "id") id,
)

seq-ok : (m k : Result JobError (Unit {0})) → (m >> k) ≡ ok tt → (m ≡ ok tt) × (k ≡ ok tt)
seq-ok (ok _) k h = (refl, h)
seq-ok (err e) k h = cc

-- The two facts of a valid record that determine it, beside its ID and its time.
valid_parts :
    (r : MessageJobRecord)
    → validate_record r ≡ ok tt
    → (r.version ≡ 1) × (event_eq r.event (persisted_message_event r.message_id) ≡ true)
unfolding validate_record
valid_parts r h =
    let version =
      ensure (r.version == 1) (invalid (text "unsupported message job record version")) in
    let id = check_message_id r.message_id in
    let event = validate_message_event r.message_id r.event in
    let same =
      ensure (event_eq r.event (persisted_message_event r.message_id))
        (invalid (text "persisted message job must contain only its message ID envelope")) in
    let last = seq-ok (version >> id >> event) same h in
    let first = seq-ok version id (seq-ok (version >> id) event last.0).0 in
    (ground (arith, ensured _ _ first.0), ensured _ _ last.1)

codec-ReadsBack : ReadsBack codec
unfolding read_record new_record
codec-ReadsBack = record {
  at = λ r h.
      let parts = valid_parts r h in
      ground (
        arith,
        drop_last-append r.message_id b'\n',
        parts.0,
        same_event r.event r.message_id parts.1,
      );
}

abbrev pub env : Env
env = record {
  codec = codec;
  max_pending = 4;
  clock = λ n. 7;
  fault = λ n. none;
  root_is_private = true;
  process_id = text "12";
  decimal = λ n. n ∷ [];
}

abbrev pub empty : Jobs
empty = record { files = []; index = []; next_candidate_id = 1; calls = 0 }

-- An event with more fields than those that are stored.
abbrev pub created : JobEvent
created = record {
  version = 1;
  resource = text "messages";
  event = text "created";
  received_at = none;
  payload =
      object
        (field (text "body") (string (text "hello")) (field (text "id") (string (text "m1")) end));
}

enqueue-Outcome_example : Outcome codec (text "m1") [] (enqueue_sync env (text "m1") created empty)
unfolding job_files
enqueue-Outcome_example = enqueue-Outcome env codec-IsDigest (text "m1") created empty

run-refines_example :
    SpecStep codec
      (job_files empty.files)
      (job_files (run env (enqueues (text "m1") created) empty).1.files)
      (enqueues (text "m1") created)
      (run env (enqueues (text "m1") created) empty).0
run-refines_example = run-refines env codec-IsDigest (enqueues (text "m1") created) empty

-- Three requests: a job that is queued, a restart whose fifth call fails, and its removal.
abbrev three_requests : List (Request × (ℕ → Option ℕ))
three_requests =
    (enqueues (text "m1") created, λ n. none)
    ∷ (restarts, λ n. elim (n == 20) [ true ↦ some 0 | false ↦ none ])
    ∷ (removes (text "m1"), λ n. none)
    ∷ []

replay-IsComplete_example : IsComplete codec (job_files (replay env three_requests empty).files)
unfolding job_files
replay-IsComplete_example = replay-IsComplete env codec-IsDigest three_requests empty refl

queued_job_is_loaded_example :
    (now : ℕ) × (◌≡◌ {A = Option MessageJobRecord}
      (some (new_record (text "m1") 7))
      (some (new_record (text "m1") now)))
unfolding enqueue_sync load_sync read_record short_digest drop_last text validate_message_id
    byte_len as_bytes encode_char text_eq encode_message_job_record message_job_path bytes_to_hex
    hex_digit decode_message_job_record
queued_job_is_loaded_example =
    queued_job_is_loaded env codec-IsDigest codec-ReadsBack (text "m1") created empty refl
      (λ n. none) (some (new_record (text "m1") 7)) refl

-- The file of the record that was queued for `m1` at the time 7.
abbrev job_file : File
job_file = record {
  name = message_job_path codec (text "m1");
  inode = 3;
  bytes = 7 ∷ (text "m1" ++ b'\n' ∷ []);
  is_private = true;
}

abbrev stored : Jobs
stored = record { files = job_file ∷ []; index = []; next_candidate_id = 1; calls = 0 }

complete_job_is_served_example :
    (load_sync env (text "m1") stored).0 ≡ ok (some (new_record (text "m1") 7))
unfolding message_job_path find_file links encode_message_job_record is_job_filename
    check_message_id short_digest text new_record bytes_to_hex text_eq hex_digit as_bytes
    encode_char byte_len validate_message_id
complete_job_is_served_example =
    complete_job_is_served env (text "m1") 7 job_file stored codec-ReadsBack (λ n. refl) refl refl
      (omega arith) refl refl refl refl refl

decode-encode_example :
    (decode_message_job_record codec job_file.bytes ≡ ok (new_record (text "m1") 7))
    ↔ (encode_message_job_record codec (new_record (text "m1") 7) ≡ ok job_file.bytes)
decode-encode_example =
    decode-encode codec codec-ReadsBack job_file.bytes (new_record (text "m1") 7)
