-- ===== src/Scheduler/Waiting.antt =====
-- When a job that failed runs again (src/main.rs).
use webex_generic_account_bo.Base.{
  ℕ, ◌+◌, ◌≤◌, ◌≡◌, refl, true, false, List, [], ◌∷◌, All, Duration, leb, min, max, length, arith,
}
use webex_generic_account_bo.Text.{Text, text_eq_refl, contains_text}
use webex_generic_account_bo.Scheduler.Defs.{
  Scheduler, retry_after, remove_job, insert_job, remove_text, is_deferred, clamp_delay,
  schedule_message_job, record_message_job_outcome, drop_guard, message_job_max_retry_delay,
  activate,
}
use webex_generic_account_bo.Scheduler.Deferral.{Call, IsBefore, run_calls, copies, calls-IsHeld}

-- The delay of a retry in nanoseconds: what was asked for, but at least 10 milliseconds and at most
-- a day.
abbrev pub retry_delay : Duration → Duration
retry_delay d = min (max d 10_000_000) 86_400_000_000_000

-- After the retry of a job was recorded, no sequence of calls of the event handler, rescans with
-- whatever index, ends of tasks and outcomes of other jobs starts the job again before its delay is
-- over, which is the one that was asked for, but at least 10 milliseconds and at most a day: it runs
-- at most as often as when the retry was recorded. The calls do not interleave.
pub retry_waits_for_its_delay :
    (n now : ℕ) (id : Text) (d : Duration) (s : Scheduler) (calls : List Call)
    → All (IsBefore (now + retry_delay d) id) calls
    → copies id (run_calls n calls (record_message_job_outcome now id (retry_after d) s)).tasks
      ≤ copies id s.tasks
unfolding record_message_job_outcome insert_job clamp_delay
retry_waits_for_its_delay n now id d s calls b =
    (calls-IsHeld n (now + retry_delay d) id calls
      (record_message_job_outcome now id (retry_after d) s) b
      (ground (arith, text_eq_refl id))).fewer

not_contained : (id : Text) (ss : List Text) → contains_text id (remove_text id ss) ≡ false
unfolding remove_text contains_text
not_contained id [] = refl
not_contained id (s ∷ ss) = ground (arith, not_contained id ss)

not_deferred :
    (t now : ℕ) (id : Text) (ds : List (Text × ℕ))
    → t ≤ now
    → is_deferred now id (insert_job id t ds) ≡ false
unfolding is_deferred insert_job remove_job
not_deferred t now id [] h = ground arith
not_deferred t now id (d ∷ ds) h = ground (arith, not_deferred t now id ds)

-- A job whose retry was recorded and whose task is over is started by a call that comes a day later or
-- more, whatever its delay, if a slot is free then.
pub retry_starts_after_its_delay :
    (n now later : ℕ) (id : Text) (d : Duration) (s : Scheduler)
    → now + message_job_max_retry_delay ≤ later
    → leb n (length (remove_text id s.active)) ≡ false
    → contains_text id
        (schedule_message_job n later id
          (drop_guard id (record_message_job_outcome now id (retry_after d) s))).tasks
      ≡ true
unfolding schedule_message_job record_message_job_outcome drop_guard activate clamp_delay
    contains_text
retry_starts_after_its_delay n now later id d s h free = ground (
  arith,
  text_eq_refl id,
  not_contained id s.active,
  not_deferred (now + clamp_delay d) later id s.deferred,
)
