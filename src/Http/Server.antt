-- ===== src/Http/Server.antt =====
-- The handlers of the HTTP interface (src/main.rs).
use webex_generic_account_bo.Base.{
  ℕ, ◌*◌, ◌/◌, max, Bool, true, false, not, Option, none, some, List, ◌++◌, length, Result, ok, err,
  Duration, from_secs, if◌then◌else◌,
}
use webex_generic_account_bo.Text.{Text, text, is_blank, is_some_text}
use webex_generic_account_bo.Webex.{
  SidecarEvent, EventData, HttpError, bad_request, retry_after_error, message_job_error,
}
use webex_generic_account_bo.Bot.{BotAction}
use webex_generic_account_bo.Bot
use webex_generic_account_bo.Scheduler.{
  Scheduler, MessageJobAdmission, ignore, queue, admit_message_job, schedule_message_job,
}
use webex_generic_account_bo.Jobs.{
  Value, JobEvent, JobError, Env, MessageJobEnqueueStatus, queued, existing, DurableMessageJobs,
  enqueue_guarded, pending_count_guarded,
}

-- `AppState`, as far as the handlers change it.
pub record AppState : Type 0 where
  pub message_jobs : DurableMessageJobs
  pub scheduler : Scheduler

-- What the handlers read: the token of the sidecar, the limit on active jobs, the time of scheduling,
-- and the readers of JSON.
pub record Site : Type 0 where
  pub jobs : Env
  pub sidecar_token : Option Text
  pub max_active_message_jobs : ℕ
  pub now : ℕ
  pub from_slice : List ℕ → Result Text JobEvent
  pub read_message : Value → EventData

-- A request: its `Authorization` header, if it is text, whether a slot is free for it, and what
-- axum's `to_bytes` answers for its body under a limit.
pub record EventRequest : Type 0 where
  pub authorization : Option Text
  pub slot_free : Bool
  pub to_bytes : ℕ → Result Text (List ℕ)

-- The body of a response; of a healthy one, the counts.
pub data ResponseBody : Type 0 where
  failure : Text → ResponseBody
  accepted : BotAction → ResponseBody
  healthy : ℕ → ℕ → ResponseBody

-- A response, with the seconds of its `Retry-After` header.
pub record Response : Type 0 where
  pub status : ℕ
  pub retry_after : Option ℕ
  pub body : ResponseBody

abbrev pub max_event_body_bytes : ℕ
max_event_body_bytes = 256 * 1024

unfoldable pub retry_after_seconds : Option Duration → Option ℕ
retry_after_seconds none = none
retry_after_seconds (some d) = some (max (d / from_secs 1) 1)

-- `IntoResponse for HttpError`.
unfoldable pub into_response : HttpError → Response
unfolding retry_after_seconds
into_response e = record {
  status = e.status;
  retry_after = retry_after_seconds e.retry_after;
  body = failure e.message;
}

unfoldable pub unauthorized : HttpError
unauthorized = record { status = 401; message = text "unauthorized"; retry_after = none }

unfoldable pub authorize : Option Text → Option Text → Result HttpError (Unit {0})
unfolding unauthorized
authorize none authorization = ok tt
authorize (some token) authorization =
    if is_some_text (text "Bearer " ++ token) authorization then ok tt else err unauthorized

-- The token from the environment variable, unless it is blank; `none` where the bot does not start.
unfoldable pub sidecar_token : Option Text → Bool → Option (Option Text)
sidecar_token none allow_unauthenticated = if allow_unauthenticated then some none else none
sidecar_token (some value) allow_unauthenticated =
    if not (is_blank value)
    then some (some value)
    else if allow_unauthenticated
    then some none
    else none

-- A handler step: a response and the state after it.
abbrev pub H : Type 0
H = AppState → Response × AppState

abbrev pub respond : Response → H
respond r s = (r, s)

unfoldable pub accept : BotAction → Response
accept action = record { status = 202; retry_after = none; body = accepted action }

unfoldable pub is_existing_status : MessageJobEnqueueStatus → Bool
is_existing_status queued = false
is_existing_status existing = true

unfoldable pub on_enqueued : Site → Text → Result JobError MessageJobEnqueueStatus → H
unfolding into_response message_job_error accept is_existing_status schedule_message_job
on_enqueued site id (ok status) s = (
  accept (Bot.queued id (is_existing_status status)),
  record {
    message_jobs = s.message_jobs;
    scheduler = schedule_message_job site.max_active_message_jobs site.now id s.scheduler;
  },
)
on_enqueued site id (err e) s = (into_response message_job_error, s)

unfoldable pub enqueue_message : Site → JobEvent → Text → H
unfolding on_enqueued enqueue_guarded
enqueue_message site event id s =
    let out = enqueue_guarded site.jobs id event s.message_jobs in
    on_enqueued site id out.0 (record { message_jobs = out.1; scheduler = s.scheduler })

unfoldable pub on_admitted : Site → JobEvent → Result HttpError MessageJobAdmission → H
unfolding enqueue_message accept into_response
on_admitted site event (ok (ignore action)) = respond (accept action)
on_admitted site event (ok (queue id)) = enqueue_message site event id
on_admitted site event (err e) = respond (into_response e)

-- The event with its data read as a message.
unfoldable pub sidecar_event : Site → JobEvent → SidecarEvent
sidecar_event site e = record {
  version = e.version;
  resource = e.resource;
  event = e.event;
  contents = site.read_message e.payload;
}

unfoldable pub on_event : Site → Result Text JobEvent → H
unfolding on_admitted admit_message_job sidecar_event into_response bad_request
on_event site (ok event) = on_admitted site event (admit_message_job (sidecar_event site event))
on_event site (err e) =
    respond (into_response (bad_request (text "invalid sidecar event payload: " ++ e)))

unfoldable pub on_body : Site → Result Text (List ℕ) → H
unfolding on_event into_response bad_request
on_body site (ok body) = on_event site (site.from_slice body)
on_body site (err e) =
    respond (into_response (bad_request (text "failed to read sidecar event body: " ++ e)))

unfoldable pub on_slot : Site → EventRequest → Bool → H
unfolding on_body into_response retry_after_error
on_slot site request true = on_body site (request.to_bytes max_event_body_bytes)
on_slot site request false =
    respond (into_response (retry_after_error 503 (text "server busy") (from_secs 5)))

unfoldable pub on_authorized : Site → EventRequest → Result HttpError (Unit {0}) → H
unfolding on_slot into_response
on_authorized site request (ok _) = on_slot site request request.slot_free
on_authorized site request (err e) = respond (into_response e)

unfoldable pub handle_event : Site → EventRequest → H
unfolding on_authorized authorize
handle_event site request =
    on_authorized site request (authorize site.sidecar_token request.authorization)

unfoldable pub unavailable : Response
unavailable = record {
  status = 503;
  retry_after = none;
  body = failure (text "message job state unavailable");
}

-- The counts after the listing: a store that has failed is not healthy.
unfoldable pub on_counted : Result JobError ℕ → H
unfolding unavailable
on_counted (ok pending) s = if s.message_jobs.runtime_unhealthy then (unavailable, s) else (
  record { status = 200; retry_after = none; body = healthy pending (length s.scheduler.active) },
  s,
)
on_counted (err e) s = (unavailable, s)

unfoldable pub count_jobs : Site → H
unfolding on_counted pending_count_guarded
count_jobs site s =
    let out = pending_count_guarded site.jobs s.message_jobs in
    on_counted out.0 (record { message_jobs = out.1; scheduler = s.scheduler })

-- `message_job_counts`, for a request that found the scan free or not.
unfoldable pub message_job_counts : Site → Bool → H
unfolding count_jobs unavailable
message_job_counts site scan_free s =
    if not scan_free
    then (unavailable, s)
    else if s.message_jobs.runtime_unhealthy
    then (unavailable, s)
    else count_jobs site s

unfoldable pub on_health_authorized : Site → Bool → Result HttpError (Unit {0}) → H
unfolding message_job_counts into_response
on_health_authorized site scan_free (ok _) = message_job_counts site scan_free
on_health_authorized site scan_free (err e) = respond (into_response e)

unfoldable pub handle_health : Site → Option Text → Bool → H
unfolding on_health_authorized authorize
handle_health site authorization scan_free =
    on_health_authorized site scan_free (authorize site.sidecar_token authorization)
