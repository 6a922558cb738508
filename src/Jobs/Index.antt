-- ===== src/Jobs/Index.antt =====
-- The index of the job store and the check of the directory against it (src/message_jobs.rs).
use webex_generic_account_bo.Base.{
  ℕ, Bool, true, false, ◌&&◌, Option, none, some, List, [], ◌∷◌, length, map, all, Result, ok, err,
  ensure, ◌==◌, if◌then◌else◌,
}
use webex_generic_account_bo.Text.{Text, text, text_eq, contains_text}
use webex_generic_account_bo.Scheduler.{Entry}
use webex_generic_account_bo.Jobs.Records.{MessageJobRecord, JobError, invalid, message_job_path}
use webex_generic_account_bo.Jobs.Disk.{Env, J, ◌>>=◌, ◌>>◌, done, with_index, query}
use webex_generic_account_bo.Jobs.Files.{list_job_files, recover_candidates}

-- The time of queueing of an ID in the index.
unfoldable pub indexed : Text → List Entry → Option ℕ
indexed id [] = none
indexed id ((t, x) ∷ es) = elim (text_eq id x) [ true ↦ some t | false ↦ indexed id es ]

unfoldable pub register_at : Option ℕ → MessageJobRecord → J (Unit {0})
register_at none r s = (ok tt, with_index s ((r.enqueued_at_unix_nanos, r.message_id) ∷ s.index))
register_at (some t) r s =
    if t == r.enqueued_at_unix_nanos
    then (ok tt, s)
    else (err (invalid (text "message job index contains conflicting records for message ID")), s)

unfoldable pub register_index_record : MessageJobRecord → J (Unit {0})
unfolding indexed register_at
register_index_record r s = register_at (indexed r.message_id s.index) r s

unfoldable pub register_records : List MessageJobRecord → J (Unit {0})
unfolding register_index_record
register_records [] = done tt
register_records (r ∷ rs) = do register_index_record r; register_records rs

-- Both the check of an existing directory and of one that has just been created.
unfoldable pub ensure_private_job_root : Env → J (Unit {0})
unfolding query
ensure_private_job_root env =
    query env
      (λ _. ensure env.root_is_private (invalid (text "message job root must have mode 0700")))

unfoldable pub prepare_root_sync : Env → J (Unit {0})
unfolding ensure_private_job_root recover_candidates register_records
prepare_root_sync env = do
  ensure_private_job_root env
  records ← recover_candidates env
  register_records records

-- Whether the listed paths are those of the index.
unfoldable pub matches_index : Env → List Entry → List Text → Bool
matches_index env index paths =
    let expected = map (λ e. message_job_path env.codec e.1) index in
    length paths == length expected && all (λ p. contains_text p expected) paths

unfoldable pub check_paths : Env → List Text → J (List Text)
unfolding matches_index
check_paths env paths s = if matches_index env s.index paths then (ok paths, s) else (
  err (invalid (text "message job directory does not match the in-memory startup index")),
  s,
)

unfoldable pub checked_job_files_sync : Env → J (List Text)
unfolding list_job_files check_paths
checked_job_files_sync env = do paths ← list_job_files env; check_paths env paths

unfoldable pub check_same_id : Text → MessageJobRecord → Result JobError (Unit {0})
check_same_id id r =
    ensure (text_eq r.message_id id) (invalid (text "message job digest collision"))
