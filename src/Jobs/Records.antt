-- ===== src/Jobs/Records.antt =====
-- The record of a durable job, its validation and its bytes (src/message_jobs.rs).
use webex_generic_account_bo.Base.{
  ℕ, ◌*◌, Bool, true, false, not, ◌&&◌, Option, none, some, List, [], ◌∷◌, ◌++◌, length, Result,
  ◌>>◌, if◌then◌else◌, ok, err, ensure, ◌==◌, leb,
}
use webex_generic_account_bo.Text.{Text, text, text_eq, as_bytes, is_some_text}
use webex_generic_account_bo.Markers.{bytes_to_hex}
use webex_generic_account_bo.Scheduler.{validate_message_id}

-- `serde_json::Value`. The fields of an object are in the order of their keys, each key once.
mutual
  pub data Value : Type 0 where
    null : Value
    boolean : Bool → Value
    number : Text → Value
    string : Text → Value
    array : Items → Value
    object : Fields → Value

  pub data Items : Type 0 where
    nil : Items
    item : Value → Items → Items

  pub data Fields : Type 0 where
    end : Fields
    field : Text → Value → Fields → Fields

unfoldable mutual
  pub value_eq : Value → Value → Bool
  value_eq null null = true
  value_eq (boolean true) (boolean b) = b
  value_eq (boolean false) (boolean b) = not b
  value_eq (number s) (number t) = text_eq s t
  value_eq (string s) (string t) = text_eq s t
  value_eq (array xs) (array ys) = items_eq xs ys
  value_eq (object fs) (object gs) = fields_eq fs gs
  value_eq _ _ = false

  pub items_eq : Items → Items → Bool
  items_eq nil nil = true
  items_eq (item x xs) (item y ys) = value_eq x y && items_eq xs ys
  items_eq _ _ = false

  pub fields_eq : Fields → Fields → Bool
  fields_eq end end = true
  fields_eq (field k x fs) (field j y gs) = text_eq k j && value_eq x y && fields_eq fs gs
  fields_eq _ _ = false

unfoldable pub get_field : Text → Fields → Option Value
get_field key end = none
get_field key (field k v fs) = elim (text_eq key k) [ true ↦ some v | false ↦ get_field key fs ]

-- `Value::get(key)`.
unfoldable pub get : Text → Value → Option Value
unfolding get_field
get key (object fs) = get_field key fs
get key _ = none

-- `Value::as_str`, of a value that may be missing.
unfoldable pub as_str : Option Value → Option Text
as_str (some (string s)) = some s
as_str _ = none

-- `SidecarEvent`, as it is stored.
pub record JobEvent : Type 0 where
  pub version : ℕ
  pub resource : Text
  pub event : Text
  pub received_at : Option Text
  pub payload : Value

unfoldable pub option_eq : Option Text → Option Text → Bool
option_eq none none = true
option_eq (some s) (some t) = text_eq s t
option_eq _ _ = false

unfoldable pub event_eq : JobEvent → JobEvent → Bool
unfolding value_eq option_eq
event_eq a b =
    a.version == b.version
    && text_eq a.resource b.resource
    && text_eq a.event b.event
    && option_eq a.received_at b.received_at
    && value_eq a.payload b.payload

pub record MessageJobRecord : Type 0 where
  pub version : ℕ
  pub message_id : Text
  pub enqueued_at_unix_nanos : ℕ
  pub event : JobEvent

unfoldable pub record_eq : MessageJobRecord → MessageJobRecord → Bool
unfolding event_eq
record_eq a b =
    a.version == b.version
    && text_eq a.message_id b.message_id
    && a.enqueued_at_unix_nanos == b.enqueued_at_unix_nanos
    && event_eq a.event b.event

-- An error of the store. An I/O error keeps whether its kind is `NotFound`.
pub data JobError : Type 0 where
  backlog_full : ℕ → JobError
  not_found : JobError
  io_error : Text → JobError
  invalid : Text → JobError

-- What the store takes from serde_json and ring: the JSON of a record, its reader, and SHA-256.
pub record Codec : Type 0 where
  pub to_vec : MessageJobRecord → List ℕ
  pub from_slice : List ℕ → Option MessageJobRecord
  pub sha256 : List ℕ → List ℕ

abbrev pub message_job_record_version : ℕ
message_job_record_version = 1

abbrev pub max_message_job_record_bytes : ℕ
max_message_job_record_bytes = 512 * 1024

-- The checks of `validate_message_event`.
unfoldable pub validate_message_event : Text → JobEvent → Result JobError (Unit {0})
unfolding get as_str
validate_message_event message_id e =
    ensure
      (e.version == 1 && text_eq e.resource (text "messages") && text_eq e.event (text "created"))
      (invalid (text "only version 1 message-created events may be queued"))
    >> ensure (is_some_text message_id (as_str (get (text "id") e.payload)))
        (invalid (text "queued event message ID does not match the durable job ID"))

unfoldable pub persisted_message_event : Text → JobEvent
persisted_message_event message_id = record {
  version = 1;
  resource = text "messages";
  event = text "created";
  received_at = none;
  payload = object (field (text "id") (string message_id) end);
}

unfoldable pub check_message_id : Text → Result JobError (Unit {0})
check_message_id id = ensure (validate_message_id id) (invalid (text "invalid message ID"))

unfoldable pub validate_record : MessageJobRecord → Result JobError (Unit {0})
unfolding validate_message_event check_message_id event_eq persisted_message_event
validate_record r =
    ensure (r.version == message_job_record_version)
      (invalid (text "unsupported message job record version"))
    >> check_message_id r.message_id
    >> validate_message_event r.message_id r.event
    >> ensure (event_eq r.event (persisted_message_event r.message_id))
        (invalid (text "persisted message job must contain only its message ID envelope"))

-- The bytes of a valid record, unless they are too many.
unfoldable pub sized : List ℕ → Result JobError (List ℕ)
sized bytes =
    if leb (length bytes) max_message_job_record_bytes
    then ok bytes
    else err (invalid (text "message job record exceeds the byte limit"))

unfoldable pub encode_valid :
    Codec → MessageJobRecord → Result JobError (Unit {0}) → Result JobError (List ℕ)
unfolding sized
encode_valid c r (ok _) = sized (c.to_vec r ++ b'\n' ∷ [])
encode_valid c r (err e) = err e

unfoldable pub encode_message_job_record : Codec → MessageJobRecord → Result JobError (List ℕ)
unfolding encode_valid validate_record
encode_message_job_record c r = encode_valid c r (validate_record r)

-- A record is accepted if its own encoding is the bytes that were read.
unfoldable pub accept_canonical :
    List ℕ → MessageJobRecord → Result JobError (List ℕ) → Result JobError MessageJobRecord
accept_canonical bytes r (ok encoded) =
    if text_eq encoded bytes
    then ok r
    else err (invalid (text "message job record is not canonical JSON"))
accept_canonical bytes r (err e) = err e

unfoldable pub decode_valid :
    Codec
    → List ℕ
    → MessageJobRecord
    → Result JobError (Unit {0})
    → Result JobError MessageJobRecord
unfolding accept_canonical encode_message_job_record
decode_valid c bytes r (ok _) = accept_canonical bytes r (encode_message_job_record c r)
decode_valid c bytes r (err e) = err e

unfoldable pub decode_parsed :
    Codec → List ℕ → Option MessageJobRecord → Result JobError MessageJobRecord
unfolding decode_valid validate_record
decode_parsed c bytes none = err (invalid (text "invalid message job JSON"))
decode_parsed c bytes (some r) = decode_valid c bytes r (validate_record r)

unfoldable pub decode_message_job_record : Codec → List ℕ → Result JobError MessageJobRecord
unfolding decode_parsed
decode_message_job_record c bytes = decode_parsed c bytes (c.from_slice bytes)

-- The SHA-256 of the ID, in hexadecimal.
unfoldable pub message_id_digest : Codec → Text → Text
message_id_digest c id = bytes_to_hex (c.sha256 (as_bytes id))

-- The name of the job file of an ID, in the directory of the store.
unfoldable pub message_job_path : Codec → Text → Text
unfolding message_id_digest
message_job_path c id = message_id_digest c id ++ text ".json"
