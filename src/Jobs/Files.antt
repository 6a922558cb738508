-- ===== src/Jobs/Files.antt =====
-- The names of the job files, and reading, listing and recovering them (src/message_jobs.rs).
use webex_generic_account_bo.Base.{
  ℕ, suc, Bool, true, false, ◌&&◌, Option, none, some, List, [], ◌∷◌, ◌++◌, length, map, all,
  Result, ok, err, ensure, ◌==◌, leb, ltb, if◌then◌else◌, is_some,
}
use webex_generic_account_bo.Text.{Text, text, text_eq, byte_len, as_bytes, strip_prefix}
use webex_generic_account_bo.Scheduler.{text_leb}
use webex_generic_account_bo.Jobs.Records.{
  MessageJobRecord, JobError, not_found, invalid, max_message_job_record_bytes,
  decode_message_job_record, message_job_path,
}
use webex_generic_account_bo.Jobs.Disk.{
  File, Env, J, ◌>>=◌, ◌>>◌, done, fail, lift, find_file, links, query, open_file, read_bytes, sync,
  remove_file,
}

-- `str::strip_suffix`.
unfoldable pub strip_suffix : Text → Text → Option Text
strip_suffix suffix [] = elim (text_eq suffix []) [ true ↦ some [] | false ↦ none ]
strip_suffix suffix (c ∷ s) = elim (text_eq suffix (c ∷ s)) [
  | true ↦ some []
  | false ↦ elim (strip_suffix suffix s) [ none ↦ none | some r ↦ some (c ∷ r) ]
]

unfoldable pub is_digest_byte : ℕ → Bool
is_digest_byte b = if leb b'0' b && leb b b'9' then true else leb b'a' b && leb b b'f'

-- 64 lower-case hexadecimal digits.
unfoldable pub is_job_digest : Option Text → Bool
unfolding is_digest_byte
is_job_digest none = false
is_job_digest (some digest) = byte_len digest == 64 && all is_digest_byte (as_bytes digest)

unfoldable pub is_job_filename : Text → Bool
unfolding strip_suffix is_job_digest
is_job_filename name = is_job_digest (strip_suffix (text ".json") name)

unfoldable pub is_candidate_name : Text → Bool
is_candidate_name name = is_some (strip_prefix (text ".pending-") name)

-- The metadata of a file, with the number of its links.
unfoldable pub metadata : Env → Text → J (File × ℕ)
unfolding query find_file links
metadata env name =
    query env
      (λ fs. elim (find_file name fs) [ none ↦ err not_found | some f ↦ ok (f, links f.inode fs) ])

unfoldable pub validate_job_file_metadata : File × ℕ → ℕ → Result JobError (Unit {0})
validate_job_file_metadata (f, n) expected =
    ensure (f.is_private && n == expected)
      (invalid (text "message job must be current-user-owned mode 0600"))

-- The same file, of the same length.
unfoldable pub same_file_snapshot : File × ℕ → File × ℕ → Bool
same_file_snapshot (f, _) (g, _) = f.inode == g.inode && length f.bytes == length g.bytes

unfoldable pub check_size : List ℕ → Result JobError (Unit {0})
check_size bytes =
    ensure (leb (length bytes) max_message_job_record_bytes)
      (invalid (text "message job exceeds the byte limit"))

unfoldable pub check_unchanged : File × ℕ → File × ℕ → List ℕ → Result JobError (Unit {0})
unfolding same_file_snapshot
check_unchanged before after bytes =
    ensure (same_file_snapshot before after && length after.0.bytes == length bytes)
      (invalid (text "message job changed while it was read"))

-- The restat and the decoding of the bytes that were read.
unfoldable pub finish_read : Env → Text → File × ℕ → List ℕ → J MessageJobRecord
unfolding metadata check_unchanged
finish_read env name before bytes = do
  after ← metadata env name
  lift (check_unchanged before after bytes)
  lift (decode_message_job_record env.codec bytes)

unfoldable pub read_body : Env → Text → ℕ → File × ℕ → J MessageJobRecord
unfolding read_bytes validate_job_file_metadata check_size finish_read
read_body env name expected before = do
  lift (validate_job_file_metadata before expected)
  lift (check_size before.0.bytes)
  bytes ← read_bytes env (suc max_message_job_record_bytes) name
  lift (check_size bytes)
  finish_read env name before bytes

-- The body that `read_job_file` and `read_candidate_file` share: a file of so many links.
unfoldable pub read_linked : Env → Text → ℕ → J MessageJobRecord
unfolding open_file metadata read_body
read_linked env name expected = do
  open_file env name
  before ← metadata env name
  read_body env name expected before

unfoldable pub read_job_file : Env → Text → J MessageJobRecord
unfolding read_linked
read_job_file env name = read_linked env name 1

unfoldable pub read_candidate_file : Env → Text → ℕ → J MessageJobRecord
unfolding read_linked
read_candidate_file env name expected = read_linked env name expected

-- The names in the directory, and the step to the next of them.
unfoldable pub read_dir : Env → J (List Text)
unfolding query
read_dir env = query env (λ fs. ok (map (λ f. f.name) fs))

unfoldable pub next_entry : Env → J (Unit {0})
unfolding query
next_entry env = query env (λ _. ok tt)

unfoldable pub list_job : Env → Text → J (List Text) → J (List Text)
unfolding metadata validate_job_file_metadata
list_job env name rest = do m ← metadata env name; lift (validate_job_file_metadata m 1); rest

-- An entry of `list_job_files`, with what follows it.
unfoldable pub list_entry : Env → List Text → Text → (List Text → J (List Text)) → J (List Text)
unfolding list_job is_candidate_name is_job_filename
list_entry env found name rest =
    if is_job_filename name
    then if leb env.max_pending (length found)
      then fail (invalid (text "message job backlog exceeds the fixed limit"))
      else list_job env name (rest (found ++ name ∷ []))
    else if is_candidate_name name
    then fail (invalid (text "unrecovered message job candidate remains"))
    else fail (invalid (text "unexpected entry in message job root"))

unfoldable pub list_entries : Env → List Text → List Text → J (List Text)
unfolding list_entry next_entry
list_entries env found [] = done found
list_entries env found (name ∷ names) = do
  next_entry env
  list_entry env found name (λ more. list_entries env more names)

unfoldable pub insert_name : Text → List Text → List Text
insert_name n [] = n ∷ []
insert_name n (m ∷ ms) = elim (text_leb n m) [ true ↦ n ∷ m ∷ ms | false ↦ m ∷ insert_name n ms ]

-- `files.sort()`.
unfoldable pub sort_names : List Text → List Text
unfolding insert_name
sort_names [] = []
sort_names (n ∷ ns) = insert_name n (sort_names ns)

unfoldable pub list_job_files : Env → J (List Text)
unfolding read_dir list_entries sort_names
list_job_files env = do
  names ← read_dir env
  files ← list_entries env [] names
  done (sort_names files)

-- The variables of the loop of `recover_candidates`.
pub record Recovery : Type 0 where
  pub removed : Bool
  pub published : List MessageJobRecord
  pub job_count : ℕ
  pub candidate_count : ℕ

-- The candidate of a published record: its second link must be the job file of the record.
unfoldable pub check_published : Env → Text → File × ℕ → J MessageJobRecord
unfolding read_candidate_file metadata
check_published env name m = do
  lift (validate_job_file_metadata m 2)
  r ← read_candidate_file env name 2
  final ← metadata env (message_job_path env.codec r.message_id)
  lift (
      ensure (m.0.inode == final.0.inode)
        (invalid (text "message job candidate has an unexpected second link")))
  done r

unfoldable pub check_unpublished : File × ℕ → J (List MessageJobRecord)
unfolding validate_job_file_metadata
check_unpublished m = do lift (validate_job_file_metadata m 1); done []

unfoldable pub check_second_link : Env → Text → File × ℕ → J (List MessageJobRecord)
unfolding check_published
check_second_link env name m = do r ← check_published env name m; done (r ∷ [])

-- What a candidate of so many links adds to the published records.
unfoldable pub check_candidate : Env → Text → File × ℕ → J (List MessageJobRecord)
unfolding check_unpublished check_second_link
check_candidate env name m =
    if m.1 == 1
    then check_unpublished m
    else if m.1 == 2
    then check_second_link env name m
    else fail (invalid (text "message job candidate has an unexpected link count"))

unfoldable pub recover_candidate : Env → Recovery → Text → (Recovery → J Recovery) → J Recovery
unfolding check_candidate metadata remove_file
recover_candidate env v name rest = do
  m ← metadata env name
  published ← check_candidate env name m
  remove_file env name
  rest (record {
    removed = true;
    published = v.published ++ published;
    job_count = v.job_count;
    candidate_count = suc v.candidate_count;
  })

unfoldable pub recover_entry : Env → Recovery → Text → (Recovery → J Recovery) → J Recovery
unfolding recover_candidate is_job_filename is_candidate_name
recover_entry env v name rest =
    if is_job_filename name
    then if ltb env.max_pending (suc v.job_count)
      then fail (invalid (text "message job backlog exceeds the fixed limit"))
      else rest (record v { job_count = suc v.job_count })
    else if is_candidate_name name
    then if ltb env.max_pending (suc v.candidate_count)
      then fail (invalid (text "message job candidate backlog exceeds the fixed limit"))
      else recover_candidate env v name rest
    else fail (invalid (text "unexpected entry in message job root"))

unfoldable pub recover_entries : Env → Recovery → List Text → J Recovery
unfolding recover_entry next_entry
recover_entries env v [] = done v
recover_entries env v (name ∷ names) = do
  next_entry env
  recover_entry env v name (λ w. recover_entries env w names)

unfoldable pub sync_if : Env → Bool → J (Unit {0})
unfolding sync
sync_if env true = sync env
sync_if env false = done tt

unfoldable pub recover_candidates : Env → J (List MessageJobRecord)
unfolding read_dir recover_entries sync_if
recover_candidates env = do
  names ← read_dir env
  v ←
      recover_entries env
        (record { removed = false; published = []; job_count = 0; candidate_count = 0 }) names
  sync_if env v.removed
  done v.published
