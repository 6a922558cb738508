-- ===== src/Scheduler/Steps.antt =====
-- The steps of the scheduler, in any order (src/main.rs). Each block under a lock is a step of its own,
-- so that the calls of several tasks may interleave between the locks.
use webex_generic_account_bo.Base.{ℕ, ◌≡◌, true, List, [], ltb, keep}
use webex_generic_account_bo.Text.{Text, contains_text}
use webex_generic_account_bo.Scheduler.Pending.{Entry}
use webex_generic_account_bo.Scheduler.Defs.{
  Scheduler, MessageJobRunOutcome, schedule_message_job, schedule_pending_message_jobs,
  record_message_job_outcome, drop_guard, activate, remove_job,
}

unfoldable pub idle : Scheduler
idle = record { active = []; deferred = []; tasks = [] }

-- A call by the event handler, a rescan, the parts of both under one lock, and the two blocks at the end
-- of a running task.
pub data Step (max_active : ℕ) : Scheduler → Scheduler → Type 0 where
  schedules :
      (now : ℕ) (id : Text) (s : Scheduler)
      → Step max_active s (schedule_message_job max_active now id s)
  rescans :
      (now later : ℕ) (entries : List Entry) (s : Scheduler)
      → Step max_active s (schedule_pending_message_jobs max_active now later entries s)
  prunes :
      (now : ℕ) (s : Scheduler)
      → Step max_active s (record {
        active = s.active;
        deferred = keep (λ d. ltb now d.1) s.deferred;
        tasks = s.tasks;
      })
  undefers :
      (id : Text) (s : Scheduler)
      → Step max_active s
          (record { active = s.active; deferred = remove_job id s.deferred; tasks = s.tasks })
  activates : (id : Text) (s : Scheduler) → Step max_active s (activate max_active id s)
  records :
      (now : ℕ) (id : Text) (o : MessageJobRunOutcome) (s : Scheduler)
      → contains_text id s.tasks ≡ true
      → Step max_active s (record_message_job_outcome now id o s)
  ends :
      (id : Text) (s : Scheduler)
      → contains_text id s.tasks ≡ true
      → Step max_active s (drop_guard id s)

pub data Reachable (max_active : ℕ) : Scheduler → Type 0 where
  starts : Reachable max_active idle
  steps : {s t : Scheduler} → Reachable max_active s → Step max_active s t → Reachable max_active t
