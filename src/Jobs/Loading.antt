-- ===== src/Jobs/Loading.antt =====
-- Which record is loaded for a message ID (`load_sync` of src/message_jobs.rs).
use webex_generic_account_bo.Base.{
  ℕ, ◌≡◌, ◌≢◌, refl, sym, ap, ◌∙◌, Option, some, List, ◌∷◌, Result, ok, err, is_ok, arith,
}
use webex_generic_account_bo.Text.{Text, text_eq, text_eq_refl}
use webex_generic_account_bo.Jobs.Records.{
  JobError, JobEvent, MessageJobRecord, not_found, check_message_id, decode_message_job_record,
  message_job_path,
}
use webex_generic_account_bo.Jobs.Disk.{File, Jobs, Env, next, ◌>>◌, find_file}
use webex_generic_account_bo.Jobs.Files.{read_job_file}
use webex_generic_account_bo.Jobs.Index.{check_same_id, prepare_root_sync}
use webex_generic_account_bo.Jobs.Enqueue.{queued, new_record, enqueue_sync}
use webex_generic_account_bo.Jobs.Access.{load_sync, load_job, on_loaded}
use webex_generic_account_bo.Jobs.Names.{IsDigest, message_job_path-IsJob}
use webex_generic_account_bo.Jobs.Canonical.{ReadsBack, decode-encode}
use webex_generic_account_bo.Jobs.Kept.{job_files, find-job_files}
use webex_generic_account_bo.Jobs.Stages.{Keeps-prepare}
use webex_generic_account_bo.Jobs.Reading.{read_linked-Reads}
use webex_generic_account_bo.Jobs.Outcomes.{Outcome, refused, already_there, published}
use webex_generic_account_bo.Jobs.Published.{enqueue-Outcome}
use webex_generic_account_bo.Jobs.Requests.{with_faults}

loaded_value :
    (id : Text) (r q : MessageJobRecord) (s : Jobs) (o : Option MessageJobRecord)
    → r ≡ q
    → (on_loaded id (ok r) s).0 ≡ ok o
    → o ≡ some q
unfolding on_loaded check_same_id
loaded_value id r q s o e h = ground arith

module _ (env : Env) (id : Text) (f : File) (q : MessageJobRecord)
    (decoded : decode_message_job_record env.codec f.bytes ≡ ok q) where
  on_loaded_value :
      (r : Result JobError MessageJobRecord) (s : Jobs) (o : Option MessageJobRecord)
      → ((p : MessageJobRecord) → r ≡ ok p → decode_message_job_record env.codec f.bytes ≡ ok p)
      → r ≢ err not_found
      → (on_loaded id r s).0 ≡ ok o
      → o ≡ some q
  unfolding on_loaded
  on_loaded_value (ok r) s o v n h =
      let same : ok r ≡ ok q = sym (v r refl) ∙ decoded in loaded_value id r q s o (cc) h
  on_loaded_value (err not_found) s o v n h = absurd (n refl)
  on_loaded_value (err e) s o v n h = cc

  load_job_value :
      (s : Jobs) (o : Option MessageJobRecord)
      → find_file (message_job_path env.codec id) s.files ≡ some f
      → (load_job env id s).0 ≡ ok o
      → o ≡ some q
  unfolding load_job read_job_file
  load_job_value s o found h =
      let reads = read_linked-Reads env (message_job_path env.codec id) f 1 s found in
      on_loaded_value _ _ o reads.value reads.present h

  load_next_value :
      (r : Result JobError (Unit {0})) (s : Jobs) (o : Option MessageJobRecord)
      → find_file (message_job_path env.codec id) s.files ≡ some f
      → (next r s (λ _. load_job env id)).0 ≡ ok o
      → o ≡ some q
  load_next_value (ok _) s o found h = load_job_value s o found h
  load_next_value (err e) s o found h = cc

  load_value :
      (d : IsDigest env.codec) (s : Jobs) (o : Option MessageJobRecord)
      → find_file (message_job_path env.codec id) (job_files s.files) ≡ some f
      → (load_sync env id s).0 ≡ ok o
      → o ≡ some q
  unfolding load_sync
  load_value d s o found h = checked (check_message_id id) h
    where
      here : find_file (message_job_path env.codec id) (prepare_root_sync env s).1.files ≡ some f
      here =
          sym (
            find-job_files (message_job_path env.codec id) _
              (message_job_path-IsJob env.codec d id))
          ∙ ap (find_file (message_job_path env.codec id)) ((Keeps-prepare env).at s)
          ∙ found

      checked :
          (r : Result JobError (Unit {0}))
          → (next r s (λ _. prepare_root_sync env >> load_job env id)).0 ≡ ok o
          → o ≡ some q
      checked (ok _) h = load_next_value _ _ o here h
      checked (err e) h = cc

found_first :
    (name : Text) (f : File) (fs : List File) → name ≡ f.name → find_file name (f ∷ fs) ≡ some f
unfolding find_file
found_first name f fs h = ground (arith, text_eq_refl f.name, ap (λ n. text_eq n f.name) h)

-- After the answer `queued`, loading the job, with any failures of its own, fails or gives the
-- record that was queued: one that holds the message ID alone, with a time of queueing. It never
-- answers that there is no such job.
pub queued_job_is_loaded :
    (env : Env)
    → IsDigest env.codec
    → ReadsBack env.codec
    → (id : Text) (event : JobEvent) (s : Jobs) → (enqueue_sync env id event s).0 ≡ ok queued
    → (fault : ℕ → Option ℕ) (o : Option MessageJobRecord)
    → (load_sync (with_faults env fault) id (enqueue_sync env id event s).1).0 ≡ ok o
    → (now : ℕ) × (o ≡ some (new_record id now))
queued_job_is_loaded env d back id event s h fault o k = cases (enqueue-Outcome env d id event s)
  where
    cases :
        Outcome env.codec id (job_files s.files) (enqueue_sync env id event s)
        → (now : ℕ) × (o ≡ some (new_record id now))
    cases (refused p n) = absurd (ground (arith, ap is_ok h, n))
    cases (already_there p e n) = absurd (ground (arith, h, e))
    cases (published f j n p e) = (
      j.2.0,
      load_value (with_faults env fault) id f (new_record id j.2.0)
          ((decode-encode env.codec back f.bytes (new_record id j.2.0)).1 j.2.1) d
          (enqueue_sync env id event s).1 o
          (ap (find_file (message_job_path env.codec id)) p ∙ found_first _ f _ (sym j.0)) k,
    )
