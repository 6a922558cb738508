-- ===== src/Jobs/Removed.antt =====
-- What removing a job does to the job files, and the operations that only read (src/message_jobs.rs).
use webex_generic_account_bo.Base.{
  ℕ, ◌≡◌, refl, ap, ◌∙◌, Bool, true, false, not, Option, none, some, List, [], ◌∷◌, Result, ok, err,
  arith, ◌==◌,
}
use webex_generic_account_bo.Text.{Text}
use webex_generic_account_bo.Jobs.Records.{
  JobError, MessageJobRecord, not_found, check_message_id, message_job_path,
}
use webex_generic_account_bo.Jobs.Disk.{
  File, Jobs, Env, J, next, ◌>>◌, done, sync, remove_file, on_remove, remove_if, remove_name,
}
use webex_generic_account_bo.Jobs.Index.{check_same_id, prepare_root_sync}
use webex_generic_account_bo.Jobs.Access.{
  not_loaded, on_loaded, load_job, load_sync, forget, remove_found, on_remove_read, remove_job_file,
  remove_sync, pending_count_sync, index_listing, list_pending, pending_message_ids_sync,
  load_indexed, load_all, clear_index, load_message_job_index, open_with_limit,
}
use webex_generic_account_bo.Jobs.Kept.{
  job_files, Keeps, Keeps-done, Keeps-fail, Keeps-lift, Keeps-bind, Keeps-then, Keeps-if,
  Keeps-sync, Keeps-query, Keeps-recover, Keeps-read_job_file, Keeps-list_job_files, keeps_rules,
}
use webex_generic_account_bo.Jobs.Index.{ensure_private_job_root}
use webex_generic_account_bo.Jobs.Stages.{Keeps-prepare, Keeps-checked, Keeps-register}

not_loaded-Keeps : (id : Text) → Keeps (not_loaded id)
unfolding not_loaded
not_loaded-Keeps id = record { at = λ s. ground arith }

on_loaded-Keeps : (id : Text) (r : Result JobError MessageJobRecord) → Keeps (on_loaded id r)
unfolding on_loaded
on_loaded-Keeps id (ok r) = Keeps-then _ _ (Keeps-lift _) (Keeps-done (some r))
on_loaded-Keeps id (err not_found) = not_loaded-Keeps id
on_loaded-Keeps id (err e) = Keeps-fail e

load_job-Keeps : (env : Env) (id : Text) → Keeps (load_job env id)
unfolding load_job
load_job-Keeps env id = record {
  at = λ s. (on_loaded-Keeps id _).at _ ∙ (Keeps-read_job_file env _).at s;
}

pub Keeps-load : (env : Env) (id : Text) → Keeps (load_sync env id)
unfolding load_sync
Keeps-load env id = search (keeps_rules, Keeps-prepare, load_job-Keeps)

pub Keeps-count : (env : Env) → Keeps (pending_count_sync env)
unfolding pending_count_sync
Keeps-count env = search (keeps_rules, Keeps-prepare, Keeps-checked)

index_listing-Keeps : (excluded : List Text) (limit : ℕ) → Keeps (index_listing excluded limit)
unfolding index_listing
index_listing-Keeps excluded limit = record { at = λ s. refl }

list_pending-Keeps :
    (env : Env) (excluded : List Text) (limit : ℕ) → Keeps (list_pending env excluded limit)
unfolding list_pending
list_pending-Keeps env excluded limit =
    Keeps-bind _ _ (Keeps-checked env) (λ _. index_listing-Keeps excluded limit)

pub Keeps-pending :
    (env : Env) (excluded : List Text) (limit : ℕ)
    → Keeps (pending_message_ids_sync env excluded limit)
unfolding pending_message_ids_sync
Keeps-pending env excluded limit =
    Keeps-then _ _ (Keeps-prepare env)
      (Keeps-if (limit == 0) _ _ (Keeps-done []) (list_pending-Keeps env excluded limit))

load_indexed-Keeps : (env : Env) (path : Text) → Keeps (load_indexed env path)
unfolding load_indexed
load_indexed-Keeps env path =
    Keeps-bind _ _ (Keeps-read_job_file env path)
      (λ r. Keeps-then _ _ (Keeps-lift _) (Keeps-register r))

load_all-Keeps : (env : Env) (paths : List Text) → Keeps (load_all env paths)
unfolding load_all
load_all-Keeps env [] = Keeps-done tt
load_all-Keeps env (p ∷ ps) = Keeps-then _ _ (load_indexed-Keeps env p) (load_all-Keeps env ps)

clear_index-Keeps : Keeps clear_index
unfolding clear_index
clear_index-Keeps = record { at = λ s. refl }

load_index-Keeps : (env : Env) → Keeps (load_message_job_index env)
unfolding load_message_job_index
load_index-Keeps env =
    Keeps-bind _ _ (Keeps-list_job_files env)
      (λ paths. Keeps-then _ _ clear_index-Keeps (load_all-Keeps env paths))

pub Keeps-open_jobs : (env : Env) → Keeps (open_with_limit env)
unfolding open_with_limit ensure_private_job_root
Keeps-open_jobs env =
    Keeps-then _ _ (Keeps-query env _)
      (Keeps-bind _ _ (Keeps-recover env) (λ _. load_index-Keeps env))

job_files-remove_name :
    (name : Text) (fs : List File)
    → job_files (remove_name name fs) ≡ remove_name name (job_files fs)
unfolding job_files remove_name
job_files-remove_name name [] = refl
job_files-remove_name name (f ∷ fs) = ground (arith, job_files-remove_name name fs)

abbrev pub is_true : Result JobError Bool → Bool
is_true (ok b) = b
is_true (err e) = false

abbrev pub is_false : Result JobError Bool → Bool
is_false (ok b) = not b
is_false (err e) = false

-- Nothing was removed, and the answer is not `true`; or the file of that name was removed, and
-- nothing else, and the answer is not `false`.
pub data Removal (name : Text) (before : List File) (out : Result JobError Bool × Jobs)
    : Type 0 where
  kept : job_files out.1.files ≡ before → is_true out.0 ≡ false → Removal name before out
  removed :
      job_files out.1.files ≡ remove_name name before
      → is_false out.0 ≡ false
      → Removal name before out

module _ (name : Text) (before : List File) where
  next-Removal :
      {A : Type 0} (r : Result JobError A) (s : Jobs) (f : A → J Bool)
      → job_files s.files ≡ before
      → ((a : A) → Removal name before (f a s))
      → Removal name before (next r s f)
  next-Removal (ok a) s f p h = h a
  next-Removal (err e) s f p h = kept p refl

  forgotten-Removal :
      (env : Env) (id : Text) (s : Jobs)
      → job_files s.files ≡ remove_name name before
      → Removal name before ((forget id >> (sync env >> done true)) s)
  unfolding forget
  forgotten-Removal env id s p =
      removed ((Keeps-then _ _ (Keeps-sync env) (Keeps-done true)).at _ ∙ p) (ground arith)

  remove_if-Removal :
      (env : Env) (id : Text) (found : Bool) (s : Jobs)
      → job_files s.files ≡ before
      → let out = remove_if found name s in
        Removal name before (next out.0 out.1 (λ _. forget id >> (sync env >> done true)))
  unfolding remove_if
  remove_if-Removal env id true s p =
      forgotten-Removal env id _ (job_files-remove_name name s.files ∙ ap (remove_name name) p)
  remove_if-Removal env id false s p = kept p refl

  on_remove-Removal :
      (env : Env) (id : Text) (fault : Option ℕ) (s : Jobs)
      → job_files s.files ≡ before
      → let out = on_remove fault name s in
        Removal name before (next out.0 out.1 (λ _. forget id >> (sync env >> done true)))
  unfolding on_remove
  on_remove-Removal env id none s p = remove_if-Removal env id _ s p
  on_remove-Removal env id (some n) s p = kept p refl

module _ (env : Env) (id : Text) (before : List File) where
  abbrev path : Text
  path = message_job_path env.codec id

  remove_found-Removal :
      (r : MessageJobRecord) (s : Jobs)
      → job_files s.files ≡ before
      → Removal path before (remove_found env id r s)
  unfolding remove_found remove_file
  remove_found-Removal r s p =
      next-Removal path before (check_same_id id r) s
        (λ _. remove_file env path >> (forget id >> (sync env >> done true))) p
        (λ _. on_remove-Removal path before env id (env.fault s.calls) s p)

  on_read-Removal :
      (r : Result JobError MessageJobRecord) (s : Jobs)
      → job_files s.files ≡ before
      → Removal path before (on_remove_read env id r s)
  unfolding on_remove_read
  on_read-Removal (ok r) s p = remove_found-Removal r s p
  on_read-Removal (err not_found) s p = kept p refl
  on_read-Removal (err e) s p = kept p refl

  remove_job-Removal :
      (s : Jobs) → job_files s.files ≡ before → Removal path before (remove_job_file env id s)
  unfolding remove_job_file
  remove_job-Removal s p = on_read-Removal _ _ ((Keeps-read_job_file env path).at s ∙ p)

-- Removing a job, whichever calls of the file system fail: either the job files are those from
-- before and the answer is not `true`; or the job file of that message ID is gone, every other job
-- file is as it was, and the answer is not `false`.
pub remove-Removal :
    (env : Env) (id : Text) (s : Jobs)
    → Removal (message_job_path env.codec id) (job_files s.files) (remove_sync env id s)
unfolding remove_sync
remove-Removal env id s =
    let name = message_job_path env.codec id in
    let before = job_files s.files in
    next-Removal name before (check_message_id id) s
      (λ _. prepare_root_sync env >> remove_job_file env id) refl
      (λ _.
        next-Removal name before (prepare_root_sync env s).0 (prepare_root_sync env s).1
          (λ _. remove_job_file env id) ((Keeps-prepare env).at s)
          (λ _. remove_job-Removal env id before _ ((Keeps-prepare env).at s)))
