-- ===== src/Jobs/Requests.antt =====
-- Requests to the job store, and what a set of job files answers to them (src/message_jobs.rs).
use webex_generic_account_bo.Base.{
  ℕ, ◌≡◌, Bool, true, false, Option, none, is_some, List, [], ◌∷◌, Result, ok, is_ok,
}
use webex_generic_account_bo.Text.{Text}
use webex_generic_account_bo.Jobs.Records.{
  Codec, JobEvent, JobError, MessageJobRecord, message_job_path,
}
use webex_generic_account_bo.Jobs.Disk.{File, Jobs, Env, find_file, remove_name, with_index}
use webex_generic_account_bo.Jobs.Enqueue.{MessageJobEnqueueStatus, existing, enqueue_sync}
use webex_generic_account_bo.Jobs.Access.{
  load_sync, remove_sync, pending_count_sync, pending_message_ids_sync, open_with_limit,
}
use webex_generic_account_bo.Jobs.Outcomes.{IsJobFile, says_existing}
use webex_generic_account_bo.Jobs.Removed.{is_true, is_false}

-- The requests to the store; a restart loses the index.
pub data Request : Type 0 where
  enqueues : Text → JobEvent → Request
  loads : Text → Request
  removes : Text → Request
  counts : Request
  lists : List Text → ℕ → Request
  restarts : Request

-- What a request answers.
pub data Answer : Type 0 where
  enqueued_as : Result JobError MessageJobEnqueueStatus → Answer
  loaded_as : Result JobError (Option MessageJobRecord) → Answer
  removed_as : Result JobError Bool → Answer
  counted_as : Result JobError ℕ → Answer
  listed_as : Result JobError (List Text) → Answer
  restarted_as : Result JobError (Unit {0}) → Answer

abbrev pub answering :
    {A : Type 0} → (Result JobError A → Answer) → Result JobError A × Jobs → Answer × Jobs
answering f out = (f out.0, out.1)

unfoldable pub run : Env → Request → Jobs → Answer × Jobs
run env (enqueues id event) s = answering enqueued_as (enqueue_sync env id event s)
run env (loads id) s = answering loaded_as (load_sync env id s)
run env (removes id) s = answering removed_as (remove_sync env id s)
run env counts s = answering counted_as (pending_count_sync env s)
run env (lists excluded limit) s =
    answering listed_as (pending_message_ids_sync env excluded limit s)
run env restarts s = answering restarted_as (open_with_limit env (with_index s []))

-- The requests that only look at the jobs.
abbrev pub only_reads : Request → Bool
only_reads (enqueues id event) = false
only_reads (removes id) = false
only_reads _ = true

-- The specification, by the request and its answer: a request that only reads leaves the job files
-- as they are. Queueing a job either is refused, or finds the file of its ID, or adds one complete
-- file for its ID, where there was none. Removing a job either leaves the files, or deletes the one
-- of its ID.
pub data SpecStep (c : Codec) (before after : List File) : Request → Answer → Type 0 where
  reads :
      (q : Request) (a : Answer)
      → only_reads q ≡ true
      → after ≡ before
      → SpecStep c before after q a
  refuses :
      (id : Text) (event : JobEvent) (r : Result JobError MessageJobEnqueueStatus)
      → after ≡ before
      → is_ok r ≡ false
      → SpecStep c before after (enqueues id event) (enqueued_as r)
  finds :
      (id : Text) (event : JobEvent) (r : Result JobError MessageJobEnqueueStatus)
      → after ≡ before
      → r ≡ ok existing
      → is_some (find_file (message_job_path c id) before) ≡ true
      → SpecStep c before after (enqueues id event) (enqueued_as r)
  publishes :
      (id : Text) (event : JobEvent) (r : Result JobError MessageJobEnqueueStatus) (f : File)
      → IsJobFile c id f
      → find_file (message_job_path c id) before ≡ none
      → after ≡ f ∷ before
      → says_existing r ≡ false
      → SpecStep c before after (enqueues id event) (enqueued_as r)
  keeps :
      (id : Text) (r : Result JobError Bool)
      → after ≡ before
      → is_true r ≡ false
      → SpecStep c before after (removes id) (removed_as r)
  deletes :
      (id : Text) (r : Result JobError Bool)
      → after ≡ remove_name (message_job_path c id) before
      → is_false r ≡ false
      → SpecStep c before after (removes id) (removed_as r)

-- The environment with other failures.
abbrev pub with_faults : Env → (ℕ → Option ℕ) → Env
with_faults env fault = record {
  codec = env.codec;
  max_pending = env.max_pending;
  clock = env.clock;
  fault = fault;
  root_is_private = env.root_is_private;
  process_id = env.process_id;
  decimal = env.decimal;
}

-- Requests in sequence, each with its own failures.
unfoldable pub replay : Env → List (Request × (ℕ → Option ℕ)) → Jobs → Jobs
unfolding run
replay env [] s = s
replay env ((q, fault) ∷ qs) s = replay env qs (run (with_faults env fault) q s).1
