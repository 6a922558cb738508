-- ===== src/Jobs/Published.antt =====
-- What queueing a job does to the job files (src/message_jobs.rs).
use webex_generic_account_bo.Base.{
  ℕ, ◌≡◌, refl, sym, ap, ◌∙◌, Bool, true, false, Option, none, some, List, [], ◌∷◌, Result, ok,
  arith, take, inl, inr, Bool-cases,
}
use webex_generic_account_bo.Text.{Text, text, text_eq, text_eq_refl}
use webex_generic_account_bo.Jobs.Records.{
  JobError, JobEvent, not_found, io_error, encode_message_job_record, message_job_path,
  check_message_id, validate_message_event,
}
use webex_generic_account_bo.Jobs.Disk.{
  File, Jobs, Env, next, ◌>>=◌, ◌>>◌, lift, sync, query, on_query, create_private_file, on_create,
  create_if, write_all, on_write, write_to, find_file, hard_link, on_hard_link, link_file,
  fresh_inode,
}
use webex_generic_account_bo.Jobs.Files.{is_job_filename}
use webex_generic_account_bo.Jobs.Index.{prepare_root_sync, checked_job_files_sync}
use webex_generic_account_bo.Jobs.Enqueue.{
  MessageJobEnqueueStatus, unix_nanos_now, candidate_path, new_record, on_linked, link_candidate,
  publish_bytes, publish_record, new_job, job_exists, existing_or_new, enqueue_sync,
}
use webex_generic_account_bo.Jobs.Names.{IsDigest, message_job_path-IsJob, candidate_name}
use webex_generic_account_bo.Jobs.Kept.{
  job_files, Keeps, Keeps-lift, Keeps-query, job_files-write_to, create_if-Keeps, find-job_files,
}
use webex_generic_account_bo.Jobs.Stages.{
  Keeps-prepare, Keeps-checked, Keeps-now, Keeps-finish, Keeps-failed_link,
}
use webex_generic_account_bo.Jobs.Outcomes.{
  Outcome, refused, published, finish_never_existing, next-Outcome, bind-Outcome, existing-Outcome,
  lost_race-Outcome,
}

find-write_to :
    (name : Text) (bytes : List ℕ) (fs : List File) (f : File)
    → find_file name fs ≡ some f
    → (g : File) × (find_file name (write_to name bytes fs) ≡ some g)
      × (g.is_private ≡ f.is_private)
      × (g.bytes ≡ bytes)
unfolding find_file write_to
find-write_to name bytes [] f h = absurd (ground arith)
find-write_to name bytes (e ∷ fs) f h = elim (Bool-cases (text_eq name e.name)) [
  | inl same ↦ (
    record { name = e.name; inode = e.inode; bytes = bytes; is_private = e.is_private },
    ground arith,
    ground arith,
    refl,
  )
  | inr other ↦
      let r = find-write_to name bytes fs f (ground arith) in (r.0, ground (arith, r.1), r.2, r.3)
]

job_files-cons :
    (f : File) (fs : List File)
    → is_job_filename f.name ≡ true
    → job_files (f ∷ fs) ≡ f ∷ job_files fs
unfolding job_files
job_files-cons f fs h = ground arith

module _ (env : Env) (d : IsDigest env.codec) (id : Text) (now : ℕ) (candidate : Text)
    (bytes : List ℕ) (not_job : is_job_filename candidate ≡ false)
    (encoded : encode_message_job_record env.codec (new_record id now) ≡ ok bytes)
    (before : List File) where
  -- The candidate holds all the bytes.
  abbrev Holds : Option File → Type 0
  Holds o = (f : File) × (o ≡ some f) × (f.is_private ≡ true) × (f.bytes ≡ bytes)

  link_file-Outcome :
      (from to : Option File) (s : Jobs)
      → Holds from
      → to ≡ find_file (message_job_path env.codec id) s.files
      → job_files s.files ≡ before
      → let out = link_file (message_job_path env.codec id) from to s in
        Outcome env.codec id before (on_linked env (new_record id now) candidate out.0 out.1)
  unfolding link_file on_linked job_files new_record
  link_file-Outcome from (some g) s h e p = lost_race-Outcome env d id before candidate not_job _ p
  link_file-Outcome none none s h e p =
      refused ((Keeps-failed_link env candidate not_job not_found).at _ ∙ p) refl
  link_file-Outcome (some f) none s h e p =
      let g : File = record {
        name = message_job_path env.codec id;
        inode = f.inode;
        bytes = f.bytes;
        is_private = f.is_private;
      } in
      let is_job = message_job_path-IsJob env.codec d id in
      published g (refl, ground arith, (now, encoded ∙ ap ok (ground arith)))
        (ap (find_file g.name) (sym p) ∙ find-job_files g.name s.files is_job ∙ sym e)
        ((Keeps-finish env candidate not_job _).at _
          ∙ job_files-cons g s.files is_job
          ∙ ap (λ r. g ∷ r) p)
        (finish_never_existing env (new_record id now) candidate _)

  on_hard_link-Outcome :
      (fault : Option ℕ) (s : Jobs)
      → Holds (find_file candidate s.files)
      → job_files s.files ≡ before
      → let out = on_hard_link fault candidate (message_job_path env.codec id) s in
        Outcome env.codec id before (on_linked env (new_record id now) candidate out.0 out.1)
  unfolding on_hard_link on_linked
  on_hard_link-Outcome none s h p = link_file-Outcome _ _ s h refl p
  on_hard_link-Outcome (some n) s h p =
      refused
        ((Keeps-failed_link env candidate not_job (io_error (text "input/output error"))).at _ ∙ p)
        refl

  link_candidate-Outcome :
      (s : Jobs)
      → Holds (find_file candidate s.files)
      → job_files s.files ≡ before
      → Outcome env.codec id before (link_candidate env (new_record id now) candidate s)
  unfolding link_candidate hard_link new_record
  link_candidate-Outcome s h p = on_hard_link-Outcome (env.fault s.calls) s h p

  -- The candidate exists and is private.
  abbrev Exists : Option File → Type 0
  Exists o = (f : File) × (o ≡ some f) × (f.is_private ≡ true)

  abbrev Publishes : Result JobError MessageJobEnqueueStatus × Jobs → Type 0
  Publishes out = Outcome env.codec id before out

  synced-Outcome :
      (fault : Option ℕ) (s : Jobs)
      → Holds (find_file candidate s.files)
      → job_files s.files ≡ before
      → let out = on_query fault (λ _. ok tt) s in
        Publishes (next out.0 out.1 (λ _. link_candidate env (new_record id now) candidate))
  unfolding on_query
  synced-Outcome none s h p = link_candidate-Outcome _ h p
  synced-Outcome (some n) s h p = refused p refl

  written-Outcome :
      (fault : Option ℕ) (s : Jobs)
      → Exists (find_file candidate s.files)
      → job_files s.files ≡ before
      → let out = on_write fault candidate bytes s in
        Publishes
          (next out.0 out.1 (λ _. sync env >> link_candidate env (new_record id now) candidate))
  unfolding on_write sync query
  written-Outcome none s h p =
      let g = find-write_to candidate bytes s.files h.0 h.1 in
      synced-Outcome (env.fault _) _ (g.0, g.1, g.2 ∙ h.2, g.3)
        (job_files-write_to candidate not_job bytes s.files ∙ p)
  written-Outcome (some n) s h p =
      refused (job_files-write_to candidate not_job (take n bytes) s.files ∙ p) refl

  created_if-Outcome :
      (taken : Bool) (s : Jobs)
      → job_files s.files ≡ before
      → let out = create_if taken candidate s in
        Publishes (
          next out.0 out.1 (λ _.
            write_all env candidate bytes
            >> (sync env >> link_candidate env (new_record id now) candidate)))
  unfolding create_if write_all find_file
  created_if-Outcome true s p = refused p refl
  created_if-Outcome false s p =
      written-Outcome (env.fault _) _
        (
          record { name = candidate; inode = fresh_inode s.files; bytes = []; is_private = true },
          ground (arith, text_eq_refl candidate),
          refl,
        )
        ((create_if-Keeps candidate not_job false).at s ∙ p)

  created-Outcome :
      (fault : Option ℕ) (s : Jobs)
      → job_files s.files ≡ before
      → let out = on_create fault candidate s in
        Publishes (
          next out.0 out.1 (λ _.
            write_all env candidate bytes
            >> (sync env >> link_candidate env (new_record id now) candidate)))
  unfolding on_create
  created-Outcome none s p = created_if-Outcome _ s p
  created-Outcome (some n) s p = refused p refl

  publish_bytes-Outcome :
      (s : Jobs)
      → job_files s.files ≡ before
      → Publishes (publish_bytes env (new_record id now) bytes candidate s)
  unfolding publish_bytes create_private_file
  publish_bytes-Outcome s p = created-Outcome (env.fault s.calls) s p

Keeps-job_exists : (env : Env) (id : Text) → Keeps (job_exists env id)
unfolding job_exists
Keeps-job_exists env id = Keeps-query env _

module _ (env : Env) (d : IsDigest env.codec) (id : Text) (before : List File) where
  publish_record-Outcome :
      (now : ℕ) (s : Jobs)
      → job_files s.files ≡ before
      → Outcome env.codec id before (publish_record env (new_record id now) s)
  unfolding publish_record candidate_path
  publish_record-Outcome now s p =
      next-Outcome env.codec id before (encode_message_job_record env.codec (new_record id now)) s
        (λ bytes. candidate_path env >>= publish_bytes env (new_record id now) bytes) p
        (λ bytes e. publish_bytes-Outcome env d id now _ bytes (candidate_name _) e before _ p)

  new_job-Outcome :
      (s : Jobs) → job_files s.files ≡ before → Outcome env.codec id before (new_job env id s)
  unfolding new_job
  new_job-Outcome s p =
      bind-Outcome env.codec id before (checked_job_files_sync env) s _ (Keeps-checked env) p
        (λ paths t q. bind-Outcome env.codec id before (lift _) t _ (Keeps-lift _) q (λ _ u r.
          bind-Outcome env.codec id before (unix_nanos_now env) u _ (Keeps-now env) r
            (λ now v w. publish_record-Outcome now v w)))

  existing_or_new-Outcome :
      (found : Bool) (s : Jobs)
      → job_files s.files ≡ before
      → Outcome env.codec id before (existing_or_new env id found s)
  unfolding existing_or_new
  existing_or_new-Outcome true s p = existing-Outcome env d id before s p
  existing_or_new-Outcome false s p = new_job-Outcome s p

-- Queueing a job, whichever calls of the file system fail, at whatever point and after however many
-- bytes of a write, has one of three outcomes: an error, with the job files those from before; the
-- answer `existing`, with the job files those from before and one of them under the name of the
-- message ID; or one job file added where there was none of that name, private and with the whole
-- encoding of a new record of that message ID, and an answer that is not `existing`. SHA-256 is
-- assumed to give 32 bytes.
pub enqueue-Outcome :
    (env : Env)
    → IsDigest env.codec
    → (id : Text) (event : JobEvent) (s : Jobs)
    → Outcome env.codec id (job_files s.files) (enqueue_sync env id event s)
unfolding enqueue_sync
enqueue-Outcome env d id event s =
    let prepared = prepare_root_sync env >> (job_exists env id >>= existing_or_new env id) in
    let before = job_files s.files in
    bind-Outcome env.codec id before (lift (check_message_id id)) s
      (λ _. lift (validate_message_event id event) >> prepared) (Keeps-lift _) refl
      (λ _ t p.
        bind-Outcome env.codec id before (lift (validate_message_event id event)) t (λ _. prepared)
          (Keeps-lift _) p
          (λ _ u q.
            bind-Outcome env.codec id before (prepare_root_sync env) u
              (λ _. job_exists env id >>= existing_or_new env id) (Keeps-prepare env) q
              (λ _ v r.
                bind-Outcome env.codec id before (job_exists env id) v (existing_or_new env id)
                  (Keeps-job_exists env id) r
                  (λ found w k. existing_or_new-Outcome env d id before found w k))))
