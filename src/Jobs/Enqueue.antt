-- ===== src/Jobs/Enqueue.antt =====
-- Queueing a job durably (`enqueue_sync` of src/message_jobs.rs).
use webex_generic_account_bo.Base.{
  ℕ, ◌-◌, ◌^◌, suc, min, Bool, true, false, List, ◌++◌, length, Result, ok, err, ensure, ltb,
  is_some,
}
use webex_generic_account_bo.Text.{Text, text}
use webex_generic_account_bo.Jobs.Records.{
  JobEvent, MessageJobRecord, JobError, backlog_full, not_found, invalid, record_eq,
  check_message_id, validate_message_event, persisted_message_event, message_job_record_version,
  encode_message_job_record, message_job_path,
}
use webex_generic_account_bo.Jobs.Disk.{
  Env, J, ◌>>=◌, ◌>>◌, done, fail, lift, find_file, query, sync, create_private_file, write_all,
  Linked, linked, already_exists, not_linked, hard_link, remove_file,
}
use webex_generic_account_bo.Jobs.Files.{read_job_file}
use webex_generic_account_bo.Jobs.Index.{
  register_index_record, prepare_root_sync, checked_job_files_sync, check_same_id,
}

pub data MessageJobEnqueueStatus : Type 0 where
  queued : MessageJobEnqueueStatus
  existing : MessageJobEnqueueStatus

-- The job file is there already.
unfoldable pub existing_job : Env → Text → J MessageJobEnqueueStatus
unfolding read_job_file register_index_record check_same_id
existing_job env id = do
  r ← read_job_file env (message_job_path env.codec id)
  lift (check_same_id id r)
  register_index_record r
  done existing

-- `unix_nanos_now`.
unfoldable pub unix_nanos_now : Env → J ℕ
unix_nanos_now env s = (ok (min (env.clock s.calls) (2 ^ 64 - 1)), s)

-- A name that the process has not used yet.
unfoldable pub candidate_path : Env → J Text
candidate_path env s = (
  ok (text ".pending-" ++ (env.process_id ++ (text "-" ++ env.decimal s.next_candidate_id))),
  record s { next_candidate_id = suc s.next_candidate_id },
)

unfoldable pub new_record : Text → ℕ → MessageJobRecord
new_record id now = record {
  version = message_job_record_version;
  message_id = id;
  enqueued_at_unix_nanos = now;
  event = persisted_message_event id;
}

-- What follows the link of the candidate to the job file.
unfoldable pub finish_published : Env → MessageJobRecord → Text → J MessageJobEnqueueStatus
unfolding sync register_index_record remove_file read_job_file record_eq
finish_published env r candidate = do
  sync env
  register_index_record r
  remove_file env candidate
  sync env
  published ← read_job_file env (message_job_path env.codec r.message_id)
  lift (ensure (record_eq published r) (invalid (text "published message job changed")))
  done queued

-- `remove_candidate`, by the result of the removal: a missing candidate is as good as removed.
unfoldable pub on_candidate_removed : Env → Result JobError (Unit {0}) → J (Unit {0})
unfolding sync
on_candidate_removed env (ok _) = sync env
on_candidate_removed env (err not_found) = done tt
on_candidate_removed env (err e) = fail e

unfoldable pub remove_candidate : Env → Text → J (Unit {0})
unfolding remove_file on_candidate_removed
remove_candidate env candidate s =
    let out = remove_file env candidate s in on_candidate_removed env out.0 out.1

unfoldable pub lost_race : Env → Text → Text → J MessageJobEnqueueStatus
unfolding remove_candidate existing_job
lost_race env id candidate = do remove_candidate env candidate; existing_job env id

-- A failed link is the error, whether or not the candidate can be removed.
unfoldable pub failed_link : Env → JobError → Text → J MessageJobEnqueueStatus
unfolding remove_candidate
failed_link env e candidate s = let out = remove_candidate env candidate s in (err e, out.1)

unfoldable pub on_linked : Env → MessageJobRecord → Text → Linked → J MessageJobEnqueueStatus
unfolding finish_published lost_race failed_link
on_linked env r candidate linked = finish_published env r candidate
on_linked env r candidate already_exists = lost_race env r.message_id candidate
on_linked env r candidate (not_linked e) = failed_link env e candidate

unfoldable pub link_candidate : Env → MessageJobRecord → Text → J MessageJobEnqueueStatus
unfolding hard_link on_linked
link_candidate env r candidate s =
    let out = hard_link env candidate (message_job_path env.codec r.message_id) s in
    on_linked env r candidate out.0 out.1

unfoldable pub publish_bytes : Env → MessageJobRecord → List ℕ → Text → J MessageJobEnqueueStatus
unfolding create_private_file write_all sync link_candidate
publish_bytes env r bytes candidate = do
  create_private_file env candidate
  write_all env candidate bytes
  sync env
  link_candidate env r candidate

unfoldable pub publish_record : Env → MessageJobRecord → J MessageJobEnqueueStatus
unfolding candidate_path publish_bytes
publish_record env r = do
  bytes ← lift (encode_message_job_record env.codec r)
  candidate ← candidate_path env
  publish_bytes env r bytes candidate

unfoldable pub new_job : Env → Text → J MessageJobEnqueueStatus
unfolding checked_job_files_sync unix_nanos_now new_record publish_record
new_job env id = do
  paths ← checked_job_files_sync env
  lift (ensure (ltb (length paths) env.max_pending) (backlog_full env.max_pending))
  now ← unix_nanos_now env
  publish_record env (new_record id now)

-- `try_exists` of the job file.
unfoldable pub job_exists : Env → Text → J Bool
unfolding query find_file
job_exists env id = query env (λ fs. ok (is_some (find_file (message_job_path env.codec id) fs)))

unfoldable pub existing_or_new : Env → Text → Bool → J MessageJobEnqueueStatus
unfolding existing_job new_job
existing_or_new env id true = existing_job env id
existing_or_new env id false = new_job env id

unfoldable pub enqueue_sync : Env → Text → JobEvent → J MessageJobEnqueueStatus
unfolding check_message_id validate_message_event prepare_root_sync job_exists existing_or_new
enqueue_sync env id event = do
  lift (check_message_id id)
  lift (validate_message_event id event)
  prepare_root_sync env
  found ← job_exists env id
  existing_or_new env id found
