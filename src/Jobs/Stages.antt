-- ===== src/Jobs/Stages.antt =====
-- The steps of queueing a job that leave the job files as they are (src/message_jobs.rs).
use webex_generic_account_bo.Base.{
  ℕ, ◌≡◌, refl, ◌∙◌, false, Option, none, some, List, [], ◌∷◌, Result, ok, err, arith,
}
use webex_generic_account_bo.Text.{Text}
use webex_generic_account_bo.Jobs.Records.{JobError, MessageJobRecord, not_found}
use webex_generic_account_bo.Jobs.Disk.{Env, Linked, linked, already_exists, not_linked}
use webex_generic_account_bo.Jobs.Files.{is_job_filename}
use webex_generic_account_bo.Jobs.Index.{
  register_index_record, register_at, register_records, ensure_private_job_root, prepare_root_sync,
  check_paths, checked_job_files_sync, indexed,
}
use webex_generic_account_bo.Jobs.Enqueue.{
  existing_job, unix_nanos_now, candidate_path, finish_published, remove_candidate,
  on_candidate_removed, lost_race, failed_link, on_linked,
}
use webex_generic_account_bo.Jobs.Kept.{
  Keeps, Keeps-done, Keeps-fail, Keeps-lift, Keeps-bind, Keeps-then, Keeps-sync, Keeps-remove,
  Keeps-recover, Keeps-read_job_file, Keeps-list_job_files, keeps_rules,
}

pub register_at-Keeps : (o : Option ℕ) (r : MessageJobRecord) → Keeps (register_at o r)
unfolding register_at
register_at-Keeps none r = record { at = λ s. refl }
register_at-Keeps (some t) r = record { at = λ s. ground arith }

pub Keeps-register : (r : MessageJobRecord) → Keeps (register_index_record r)
unfolding register_index_record
Keeps-register r = record { at = λ s. (register_at-Keeps (indexed r.message_id s.index) r).at s }

pub register_records-Keeps : (rs : List MessageJobRecord) → Keeps (register_records rs)
unfolding register_records
register_records-Keeps [] = Keeps-done tt
register_records-Keeps (r ∷ rs) = Keeps-then _ _ (Keeps-register r) (register_records-Keeps rs)

pub Keeps-prepare : (env : Env) → Keeps (prepare_root_sync env)
unfolding prepare_root_sync ensure_private_job_root
Keeps-prepare env = search (keeps_rules, Keeps-recover, register_records-Keeps)

check_paths-Keeps : (env : Env) (paths : List Text) → Keeps (check_paths env paths)
unfolding check_paths
check_paths-Keeps env paths = record { at = λ s. ground arith }

pub Keeps-checked : (env : Env) → Keeps (checked_job_files_sync env)
unfolding checked_job_files_sync
Keeps-checked env = Keeps-bind _ _ (Keeps-list_job_files env) (check_paths-Keeps env)

pub Keeps-existing : (env : Env) (id : Text) → Keeps (existing_job env id)
unfolding existing_job
Keeps-existing env id = search (keeps_rules, Keeps-register, Keeps-read_job_file)

pub Keeps-candidate : (env : Env) → Keeps (candidate_path env)
unfolding candidate_path
Keeps-candidate env = record { at = λ s. refl }

pub Keeps-now : (env : Env) → Keeps (unix_nanos_now env)
unfolding unix_nanos_now
Keeps-now env = record { at = λ s. refl }

module _ (env : Env) (candidate : Text) (not_job : is_job_filename candidate ≡ false) where
  pub Keeps-finish : (r : MessageJobRecord) → Keeps (finish_published env r candidate)
  unfolding finish_published
  Keeps-finish r = Keeps-then _ _ (Keeps-sync env) (
      Keeps-then _ _ (Keeps-register r) (
        Keeps-then _ _ (Keeps-remove candidate not_job env) (
          Keeps-then _ _ (Keeps-sync env) (
            Keeps-bind _ _ (Keeps-read_job_file env _)
              (λ p. Keeps-then _ _ (Keeps-lift _) (Keeps-done _))))))

  on_removed-Keeps : (r : Result JobError (Unit {0})) → Keeps (on_candidate_removed env r)
  unfolding on_candidate_removed
  on_removed-Keeps (ok _) = Keeps-sync env
  on_removed-Keeps (err not_found) = Keeps-done tt
  on_removed-Keeps (err e) = Keeps-fail e

  pub Keeps-remove_candidate : Keeps (remove_candidate env candidate)
  unfolding remove_candidate
  Keeps-remove_candidate = record {
    at = λ s. (on_removed-Keeps _).at _ ∙ (Keeps-remove candidate not_job env).at s;
  }

  pub Keeps-lost_race : (id : Text) → Keeps (lost_race env id candidate)
  unfolding lost_race
  Keeps-lost_race id = Keeps-then _ _ Keeps-remove_candidate (Keeps-existing env id)

  pub Keeps-failed_link : (e : JobError) → Keeps (failed_link env e candidate)
  unfolding failed_link
  Keeps-failed_link e = record { at = λ s. Keeps-remove_candidate.at s }

  pub Keeps-on_linked : (r : MessageJobRecord) (l : Linked) → Keeps (on_linked env r candidate l)
  unfolding on_linked
  Keeps-on_linked r linked = Keeps-finish r
  Keeps-on_linked r already_exists = Keeps-lost_race r.message_id
  Keeps-on_linked r (not_linked e) = Keeps-failed_link e
