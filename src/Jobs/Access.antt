-- ===== src/Jobs/Access.antt =====
-- Loading, removing, counting and listing jobs, and the start-up (src/message_jobs.rs).
use webex_generic_account_bo.Base.{
  ℕ, Bool, true, false, Option, none, some, List, [], ◌∷◌, length, Result, ok, err, ensure, ◌==◌,
  if◌then◌else◌, is_some,
}
use webex_generic_account_bo.Text.{Text, text, text_eq}
use webex_generic_account_bo.Scheduler.{Entry, pending_message_ids}
use webex_generic_account_bo.Jobs.Records.{
  MessageJobRecord, JobError, not_found, invalid, check_message_id, message_job_path,
}
use webex_generic_account_bo.Jobs.Disk.{
  Env, J, ◌>>=◌, ◌>>◌, done, fail, lift, with_index, sync, remove_file,
}
use webex_generic_account_bo.Jobs.Files.{read_job_file, list_job_files, recover_candidates}
use webex_generic_account_bo.Jobs.Index.{
  indexed, register_index_record, ensure_private_job_root, prepare_root_sync,
  checked_job_files_sync, check_same_id,
}

-- A file that is missing although the index has it is an error.
unfoldable pub not_loaded : Text → J (Option MessageJobRecord)
unfolding indexed
not_loaded id s =
    if is_some (indexed id s.index)
    then (err (invalid (text "indexed message job disappeared before it could be loaded")), s)
    else (ok none, s)

-- The record that `load_sync` has read, or that it did not find.
unfoldable pub on_loaded : Text → Result JobError MessageJobRecord → J (Option MessageJobRecord)
unfolding check_same_id not_loaded
on_loaded id (ok r) = do lift (check_same_id id r); done (some r)
on_loaded id (err not_found) = not_loaded id
on_loaded id (err e) = fail e

unfoldable pub load_job : Env → Text → J (Option MessageJobRecord)
unfolding read_job_file on_loaded
load_job env id s =
    let out = read_job_file env (message_job_path env.codec id) s in on_loaded id out.0 out.1

unfoldable pub load_sync : Env → Text → J (Option MessageJobRecord)
unfolding check_message_id prepare_root_sync load_job
load_sync env id = do lift (check_message_id id); prepare_root_sync env; load_job env id

unfoldable pub remove_entry : Text → List Entry → List Entry
remove_entry id [] = []
remove_entry id ((t, x) ∷ es) = elim (text_eq id x) [
  | true ↦ remove_entry id es
  | false ↦ (t, x) ∷ remove_entry id es
]

-- `index.entries.remove`.
unfoldable pub forget : Text → J (Unit {0})
unfolding remove_entry
forget id s = (ok tt, with_index s (remove_entry id s.index))

unfoldable pub remove_found : Env → Text → MessageJobRecord → J Bool
unfolding check_same_id remove_file forget sync
remove_found env id r = do
  lift (check_same_id id r)
  remove_file env (message_job_path env.codec id)
  forget id
  sync env
  done true

unfoldable pub on_remove_read : Env → Text → Result JobError MessageJobRecord → J Bool
unfolding remove_found
on_remove_read env id (ok r) = remove_found env id r
on_remove_read env id (err not_found) = done false
on_remove_read env id (err e) = fail e

unfoldable pub remove_job_file : Env → Text → J Bool
unfolding read_job_file on_remove_read
remove_job_file env id s =
    let out = read_job_file env (message_job_path env.codec id) s in
    on_remove_read env id out.0 out.1

unfoldable pub remove_sync : Env → Text → J Bool
unfolding check_message_id prepare_root_sync remove_job_file
remove_sync env id = do lift (check_message_id id); prepare_root_sync env; remove_job_file env id

unfoldable pub pending_count_sync : Env → J ℕ
unfolding prepare_root_sync checked_job_files_sync
pending_count_sync env = do
  prepare_root_sync env
  paths ← checked_job_files_sync env
  done (length paths)

unfoldable pub index_listing : List Text → ℕ → J (List Text)
index_listing excluded limit s = (ok (pending_message_ids s.index excluded limit), s)

unfoldable pub list_pending : Env → List Text → ℕ → J (List Text)
unfolding checked_job_files_sync index_listing
list_pending env excluded limit = do _ ← checked_job_files_sync env; index_listing excluded limit

unfoldable pub pending_message_ids_sync : Env → List Text → ℕ → J (List Text)
unfolding prepare_root_sync list_pending
pending_message_ids_sync env excluded limit = do
  prepare_root_sync env
  if limit == 0 then done [] else list_pending env excluded limit

-- A job file of the start-up: its name must be that of its record.
unfoldable pub load_indexed : Env → Text → J (Unit {0})
unfolding read_job_file register_index_record
load_indexed env path = do
  r ← read_job_file env path
  lift (
      ensure (text_eq (message_job_path env.codec r.message_id) path)
        (invalid (text "message job filename does not match its message ID")))
  register_index_record r

unfoldable pub load_all : Env → List Text → J (Unit {0})
unfolding load_indexed
load_all env [] = done tt
load_all env (p ∷ ps) = do load_indexed env p; load_all env ps

unfoldable pub clear_index : J (Unit {0})
clear_index s = (ok tt, with_index s [])

unfoldable pub load_message_job_index : Env → J (Unit {0})
unfolding list_job_files clear_index load_all
load_message_job_index env = do paths ← list_job_files env; clear_index; load_all env paths

-- The start of the process, on the directory that an earlier one left.
unfoldable pub open_with_limit : Env → J (Unit {0})
unfolding ensure_private_job_root recover_candidates load_message_job_index
open_with_limit env = do
  ensure_private_job_root env
  _ ← recover_candidates env
  load_message_job_index env
