-- ===== src/Jobs/Outcomes.antt =====
-- The outcomes of queueing a job (src/message_jobs.rs).
use webex_generic_account_bo.Base.{
  ℕ, ◌≡◌, refl, sym, ap, ◌∙◌, Bool, true, false, none, List, ◌∷◌, Result, ok, err, is_ok, arith,
  is_some,
}
use webex_generic_account_bo.Text.{Text}
use webex_generic_account_bo.Jobs.Records.{
  Codec, JobError, MessageJobRecord, encode_message_job_record, message_job_path,
}
use webex_generic_account_bo.Jobs.Disk.{
  File, Jobs, Env, J, next, ◌>>=◌, ◌>>◌, done, lift, query, on_query, open_file, find_file,
}
use webex_generic_account_bo.Jobs.Files.{is_job_filename, read_linked, read_job_file}
use webex_generic_account_bo.Jobs.Index.{register_index_record, check_same_id}
use webex_generic_account_bo.Jobs.Enqueue.{
  MessageJobEnqueueStatus, existing, existing_job, new_record, finish_published, remove_candidate,
  lost_race,
}
use webex_generic_account_bo.Jobs.Names.{IsDigest, message_job_path-IsJob}
use webex_generic_account_bo.Jobs.Kept.{
  job_files, Keeps, Keeps-lift, Keeps-read_linked, find-job_files,
}
use webex_generic_account_bo.Jobs.Stages.{Keeps-register, Keeps-remove_candidate}

abbrev pub says_existing : Result JobError MessageJobEnqueueStatus → Bool
says_existing (ok existing) = true
says_existing _ = false

pub finish_never_existing :
    (env : Env) (r : MessageJobRecord) (candidate : Text) (s : Jobs)
    → says_existing (finish_published env r candidate s).0 ≡ false
unfolding finish_published
finish_never_existing env r candidate s = ground arith

-- A complete job file of an ID: its name, its mode, and the bytes of a record of that ID.
abbrev pub IsJobFile : Codec → Text → File → Type 0
IsJobFile c id f =
    (f.name ≡ message_job_path c id)
    × (f.is_private ≡ true)
    × ((now : ℕ) × (encode_message_job_record c (new_record id now) ≡ ok f.bytes))

-- An error and nothing published; or a job file that was there already, and nothing published; or one
-- complete job file that was added where there was none of that name, and not the answer `existing`.
pub data Outcome (c : Codec) (id : Text) (before : List File)
    (out : Result JobError MessageJobEnqueueStatus × Jobs) : Type 0 where
  refused : job_files out.1.files ≡ before → is_ok out.0 ≡ false → Outcome c id before out
  already_there :
      job_files out.1.files ≡ before
      → out.0 ≡ ok existing
      → is_some (find_file (message_job_path c id) before) ≡ true
      → Outcome c id before out
  published :
      (f : File)
      → IsJobFile c id f
      → find_file (message_job_path c id) before ≡ none
      → job_files out.1.files ≡ f ∷ before
      → says_existing out.0 ≡ false
      → Outcome c id before out

pub next-Outcome :
    (c : Codec) (id : Text) (before : List File) {A : Type 0} (r : Result JobError A) (s : Jobs)
    (f : A → J MessageJobEnqueueStatus)
    → job_files s.files ≡ before
    → ((a : A) → r ≡ ok a → Outcome c id before (f a s))
    → Outcome c id before (next r s f)
next-Outcome c id before (ok a) s f p h = h a refl
next-Outcome c id before (err e) s f p h = refused p refl

pub bind-Outcome :
    (c : Codec) (id : Text) (before : List File) {A : Type 0} (m : J A) (s : Jobs)
    (f : A → J MessageJobEnqueueStatus)
    → Keeps m
    → job_files s.files ≡ before
    → ((a : A) (t : Jobs) → job_files t.files ≡ before → Outcome c id before (f a t))
    → Outcome c id before ((m >>= f) s)
bind-Outcome c id before m s f k p h =
    next-Outcome c id before (m s).0 (m s).1 f (k.at s ∙ p) (λ a _. h a (m s).1 (k.at s ∙ p))

-- A file that was read is there.
read_present :
    (env : Env) (name : Text) (n : ℕ) (s : Jobs) (r : MessageJobRecord)
    → (read_linked env name n s).0 ≡ ok r
    → is_some (find_file name s.files) ≡ true
unfolding read_linked open_file query on_query
read_present env name n s r h = ground arith

module _ (env : Env) (d : IsDigest env.codec) (id : Text) (before : List File) where
  pub existing-Outcome :
      (s : Jobs) → job_files s.files ≡ before → Outcome env.codec id before (existing_job env id s)
  unfolding existing_job read_job_file
  existing-Outcome s p =
      let name = message_job_path env.codec id in
      next-Outcome env.codec id before (read_linked env name 1 s).0 (read_linked env name 1 s).1
        (λ r. lift (check_same_id id r) >> (register_index_record r >> done existing))
        ((Keeps-read_linked env name 1).at s ∙ p)
        (λ r e.
          bind-Outcome env.codec id before (lift (check_same_id id r)) _
            (λ _. register_index_record r >> done existing) (Keeps-lift _)
            ((Keeps-read_linked env name 1).at s ∙ p)
            (λ _ t q.
              bind-Outcome env.codec id before (register_index_record r) t (λ _. done existing)
                (Keeps-register r) q
                (λ _ u w. already_there w refl (
                  ap (λ fs. is_some (find_file name fs)) (sym p)
                  ∙ ap is_some (find-job_files name s.files (message_job_path-IsJob env.codec d id))
                  ∙ read_present env name 1 s r e))))

  pub lost_race-Outcome :
      (candidate : Text)
      → is_job_filename candidate ≡ false
      → (s : Jobs) → job_files s.files ≡ before
      → Outcome env.codec id before (lost_race env id candidate s)
  unfolding lost_race
  lost_race-Outcome candidate not_job s p =
      bind-Outcome env.codec id before (remove_candidate env candidate) s (λ _. existing_job env id)
        (Keeps-remove_candidate env candidate not_job) p (λ _ t q. existing-Outcome t q)
