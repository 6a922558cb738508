-- ===== src/Jobs/Health.antt =====
-- The job store as its callers see it, with the latch of a failure (src/message_jobs.rs).
use webex_generic_account_bo.Base.{ℕ, Bool, true, false, not, ◌||◌, Option, List, Result, ok, err}
use webex_generic_account_bo.Text.{Text}
use webex_generic_account_bo.Jobs.Records.{JobEvent, MessageJobRecord, JobError, backlog_full}
use webex_generic_account_bo.Jobs.Disk.{Jobs, Env, J}
use webex_generic_account_bo.Jobs.Enqueue.{MessageJobEnqueueStatus, enqueue_sync}
use webex_generic_account_bo.Jobs.Access.{
  load_sync, remove_sync, pending_count_sync, pending_message_ids_sync,
}

pub record DurableMessageJobs : Type 0 where
  pub jobs : Jobs
  pub runtime_unhealthy : Bool

-- Whether a result makes the store unhealthy; a full backlog does not where that is allowed.
unfoldable pub is_failure : {A : Type 0} → Bool → Result JobError A → Bool
is_failure capacity_error_is_healthy (ok a) = false
is_failure capacity_error_is_healthy (err (backlog_full n)) = not capacity_error_is_healthy
is_failure capacity_error_is_healthy (err e) = true

-- An operation on a worker thread, and the latch of its error. It does not panic.
unfoldable pub run_blocking_operation :
    {A : Type 0} → Bool → J A → DurableMessageJobs → Result JobError A × DurableMessageJobs
unfolding is_failure
run_blocking_operation capacity_error_is_healthy operation s =
    let out = operation s.jobs in
    (
      out.0,
      record {
        jobs = out.1;
        runtime_unhealthy = s.runtime_unhealthy || is_failure capacity_error_is_healthy out.0;
      },
    )

module _ (env : Env) where
  unfoldable pub enqueue_guarded :
      Text
      → JobEvent
      → DurableMessageJobs
      → Result JobError MessageJobEnqueueStatus × DurableMessageJobs
  unfolding run_blocking_operation enqueue_sync
  enqueue_guarded id event = run_blocking_operation true (enqueue_sync env id event)

  unfoldable pub load :
      Text → DurableMessageJobs → Result JobError (Option MessageJobRecord) × DurableMessageJobs
  unfolding run_blocking_operation load_sync
  load id = run_blocking_operation false (load_sync env id)

  unfoldable pub remove : Text → DurableMessageJobs → Result JobError Bool × DurableMessageJobs
  unfolding run_blocking_operation remove_sync
  remove id = run_blocking_operation false (remove_sync env id)

  unfoldable pub pending_ids :
      List Text → ℕ → DurableMessageJobs → Result JobError (List Text) × DurableMessageJobs
  unfolding run_blocking_operation pending_message_ids_sync
  pending_ids excluded limit =
      run_blocking_operation false (pending_message_ids_sync env excluded limit)

  unfoldable pub pending_count_guarded : DurableMessageJobs → Result JobError ℕ × DurableMessageJobs
  unfolding run_blocking_operation pending_count_sync
  pending_count_guarded = run_blocking_operation false (pending_count_sync env)
