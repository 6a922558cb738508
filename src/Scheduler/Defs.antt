-- ===== src/Scheduler/Defs.antt =====
-- The scheduler's state and operations (src/main.rs). A time is in nanoseconds, from a parameter
-- `now`; the two locks are not poisoned, and a retry time is in the range of `Instant`.
use webex_generic_account_bo.Base.{
  ℕ, ◌+◌, ◌*◌, ◌-◌, min, max, Bool, true, false, not, ◌&&◌, ◌||◌, Option, none, some, List, [], ◌∷◌,
  ◌++◌, Result, ok, err, Duration, from_secs, from_millis, any, keep, map, length, ltb, leb, ◌==◌,
  if◌then◌else◌, unwrap_or,
}
use webex_generic_account_bo.Text.{Text, text, text_eq, contains_text}
use webex_generic_account_bo.Webex.{
  SidecarEvent, EventData, payload, unreadable, HttpError, bad_request,
}
use webex_generic_account_bo.Bot.{BotAction, ignored}
use webex_generic_account_bo.Scheduler.Pending.{Entry, pending_message_ids, validate_message_id}

abbrev pub message_job_retry_fallback : Duration
message_job_retry_fallback = from_secs 30

abbrev pub message_job_max_retry_delay : Duration
message_job_max_retry_delay = from_secs (24 * 60 * 60)

pub data MessageJobAdmission : Type 0 where
  ignore : BotAction → MessageJobAdmission
  queue : Text → MessageJobAdmission

pub data MessageJobRunOutcome : Type 0 where
  complete stopped : MessageJobRunOutcome
  retry_after : Duration → MessageJobRunOutcome

-- The message of an event that the bot handles, by its ID.
unfoldable pub admit_message_id : Option Text → Result HttpError MessageJobAdmission
admit_message_id none = ok (ignore (ignored (text "missing_message_id") none none))
admit_message_id (some id) =
    if validate_message_id id then ok (queue id) else err (bad_request (text "invalid message ID"))

unfoldable pub admit_contents : EventData → Result HttpError MessageJobAdmission
admit_contents (payload m) = admit_message_id m.id
admit_contents (unreadable e) = err (bad_request (text "invalid message payload: " ++ e))

unfoldable pub admit_message_job : SidecarEvent → Result HttpError MessageJobAdmission
admit_message_job event =
    if not (event.version == 1)
    then ok (ignore (ignored (text "unsupported_event_version") none none))
    else if not (text_eq event.resource (text "messages"))
        || not (text_eq event.event (text "created"))
    then ok (ignore (ignored (text "unsupported_event") (some event.resource) none))
    else admit_contents event.contents

-- `AppState`, as far as the scheduler changes it: the job set and map, and the tasks that run. Each
-- task holds the `ActiveMessageJobGuard` of its message ID.
pub record Scheduler : Type 0 where
  pub active : List Text
  pub deferred : List (Text × ℕ)
  pub tasks : List Text

-- `HashMap::remove`.
unfoldable pub remove_job : Text → List (Text × ℕ) → List (Text × ℕ)
remove_job id ds = keep (λ d. not (text_eq d.0 id)) ds

-- `HashMap::insert`.
unfoldable pub insert_job : Text → ℕ → List (Text × ℕ) → List (Text × ℕ)
unfolding remove_job
insert_job id t ds = (id, t) ∷ remove_job id ds

-- `get(id).is_some_and(|retry_at| *retry_at > now)`.
unfoldable pub is_deferred : ℕ → Text → List (Text × ℕ) → Bool
is_deferred now id ds = any (λ d. text_eq d.0 id && ltb now d.1) ds

-- `HashSet::remove`.
unfoldable pub remove_text : Text → List Text → List Text
remove_text id [] = []
remove_text id (s ∷ ss) = elim (text_eq s id) [
  | true ↦ remove_text id ss
  | false ↦ s ∷ remove_text id ss
]

-- The second block of `schedule_message_job`, and the spawned task.
unfoldable pub activate : ℕ → Text → Scheduler → Scheduler
activate max_active id s =
    if contains_text id s.active || leb max_active (length s.active)
    then s
    else record { active = id ∷ s.active; deferred = s.deferred; tasks = id ∷ s.tasks }

unfoldable pub schedule_message_job : ℕ → ℕ → Text → Scheduler → Scheduler
unfolding activate
schedule_message_job max_active now id s =
    if is_deferred now id s.deferred
    then s
    else activate max_active id
        (record { active = s.active; deferred = remove_job id s.deferred; tasks = s.tasks })

-- The delay of `record_message_job_outcome`.
unfoldable pub clamp_delay : Duration → Duration
clamp_delay delay = min (max delay (from_millis 10)) message_job_max_retry_delay

unfoldable pub record_message_job_outcome : ℕ → Text → MessageJobRunOutcome → Scheduler → Scheduler
unfolding clamp_delay
record_message_job_outcome now id (retry_after delay) s = record {
  active = s.active;
  deferred = insert_job id (now + clamp_delay delay) s.deferred;
  tasks = s.tasks;
}
record_message_job_outcome now id complete s = record {
  active = s.active;
  deferred = remove_job id s.deferred;
  tasks = s.tasks;
}
record_message_job_outcome now id stopped s = record {
  active = s.active;
  deferred = remove_job id s.deferred;
  tasks = s.tasks;
}

-- One task for a message ends.
unfoldable pub end_task : Text → List Text → List Text
end_task id [] = []
end_task id (s ∷ ss) = elim (text_eq s id) [ true ↦ ss | false ↦ s ∷ end_task id ss ]

-- `Drop` of the guard: the task is over.
unfoldable pub drop_guard : Text → Scheduler → Scheduler
unfolding remove_text end_task
drop_guard id s = record {
  active = remove_text id s.active;
  deferred = s.deferred;
  tasks = end_task id s.tasks;
}

unfoldable pub schedule_all : ℕ → ℕ → List Text → Scheduler → Scheduler
schedule_all max_active now [] s = s
schedule_all max_active now (id ∷ ids) s =
    schedule_all max_active now ids (schedule_message_job max_active now id s)

-- `schedule_pending_message_jobs` on the index of the durable jobs; `later` is the time at which the
-- jobs of the index are scheduled.
unfoldable pub schedule_pending_message_jobs : ℕ → ℕ → ℕ → List Entry → Scheduler → Scheduler
schedule_pending_message_jobs max_active now later entries s =
    let available = max_active - length s.active in
    if available == 0
    then s
    else (let waiting = keep (λ d. ltb now d.1) s.deferred in
        schedule_all max_active later
          (pending_message_ids entries (s.active ++ map (λ d. d.0) waiting) available)
          (record { active = s.active; deferred = waiting; tasks = s.tasks }))

-- What `run_persisted_message_job` makes of the loaded record, the event's result and the removal.
unfoldable pub outcome_of_removal : Result Text Bool → MessageJobRunOutcome
outcome_of_removal (ok removed) = complete
outcome_of_removal (err e) = retry_after message_job_retry_fallback

unfoldable pub outcome_of_event :
    Result HttpError BotAction → Result Text Bool → MessageJobRunOutcome
unfolding outcome_of_removal
outcome_of_event (ok action) removal = outcome_of_removal removal
outcome_of_event (err e) removal = retry_after (unwrap_or message_job_retry_fallback e.retry_after)

unfoldable pub run_persisted_message_job :
    Bool
    → Result Text (Option SidecarEvent)
    → (SidecarEvent → Result HttpError BotAction)
    → Result Text Bool
    → MessageJobRunOutcome
unfolding outcome_of_event
run_persisted_message_job false loaded process removal = stopped
run_persisted_message_job true (ok none) process removal = complete
run_persisted_message_job true (ok (some event)) process removal =
    outcome_of_event (process event) removal
run_persisted_message_job true (err e) process removal = retry_after message_job_retry_fallback
