-- ===== src/Http/Durability.antt =====
-- What an accepted event leaves in the job store (src/main.rs).
use webex_generic_account_bo.Base.{
  ℕ, ◌≡◌, ◌≢◌, refl, sym, ap, ◌∙◌, Bool, true, false, Option, none, some, ◌++◌, ◌∷◌, Result, ok,
  err, is_ok, arith, is_some, List, from_secs,
}
use webex_generic_account_bo.Text.{Text, text, text_eq, text_eq_refl}
use webex_generic_account_bo.Webex.{
  SidecarEvent, EventData, payload, unreadable, HttpError, bad_request, retry_after_error,
  message_job_error,
}
use webex_generic_account_bo.Bot.{BotAction, ignored}
use webex_generic_account_bo.Bot
use webex_generic_account_bo.Scheduler.{
  MessageJobAdmission, ignore, queue, admit_message_job, admit_contents, admit_message_id,
}
use webex_generic_account_bo.Jobs.{
  JobEvent, JobError, Env, File, Jobs, MessageJobEnqueueStatus, find_file, message_job_path,
  enqueue_guarded, run_blocking_operation, enqueue_sync,
}
use webex_generic_account_bo.Jobs.Names.{IsDigest}
use webex_generic_account_bo.Jobs.Kept.{job_files}
use webex_generic_account_bo.Jobs.Outcomes.{Outcome, refused, already_there, published}
use webex_generic_account_bo.Jobs.Published.{enqueue-Outcome}
use webex_generic_account_bo.Http.Server.{
  AppState, Site, EventRequest, Response, ResponseBody, accepted, into_response, accept,
  on_enqueued, enqueue_message, on_admitted, sidecar_event, on_event, on_body, on_slot,
  max_event_body_bytes, on_authorized, handle_event,
}

-- The job file of a message ID is in the directory.
abbrev pub IsStored : Site → Text → AppState → Type 0
IsStored site id s =
    is_some (find_file (message_job_path site.jobs.codec id) (job_files s.message_jobs.jobs.files))
    ≡ true

found_named :
    (name : Text) (f : File) (fs : List File)
    → f.name ≡ name
    → is_some (find_file name (f ∷ fs)) ≡ true
unfolding find_file
found_named name f fs h = ground (arith, text_eq_refl name, ap (λ n. text_eq name n) h)

-- Once a job is queued, or found to be, its file is in the directory.
enqueued-stored :
    (env : Env) (id : Text) (before : List File)
    (out : Result JobError MessageJobEnqueueStatus × Jobs)
    → Outcome env.codec id before out
    → is_ok out.0 ≡ true
    → is_some (find_file (message_job_path env.codec id) (job_files out.1.files)) ≡ true
enqueued-stored env id before out (refused p e) h = cc
enqueued-stored env id before out (already_there p e f) h =
    ap (λ fs. is_some (find_file (message_job_path env.codec id) fs)) p ∙ f
enqueued-stored env id before out (published f j n p e) h =
    ap (λ fs. is_some (find_file (message_job_path env.codec id) fs)) p
    ∙ found_named (message_job_path env.codec id) f before j.0

-- What an answer with the action `queued` promises.
record Promises (site : Site) (out : Response × AppState) : Type 0 where
  stored :
      (a : BotAction)
      → out.0.body ≡ accepted a
      → a.action ≡ text "queued"
      → (id : Text) × (a.message_id ≡ some id) × IsStored site id out.1

abbrev message_id_of : ResponseBody → Option Text
message_id_of (accepted a) = a.message_id
message_id_of _ = none

on_enqueued-Promises :
    (site : Site) (id : Text) (r : Result JobError MessageJobEnqueueStatus) (s : AppState)
    → (is_ok r ≡ true → IsStored site id s)
    → Promises site (on_enqueued site id r s)
unfolding on_enqueued accept into_response message_job_error Bot.queued
on_enqueued-Promises site id (ok status) s h = record {
  stored = λ a e q. (id, sym (ap message_id_of e), h refl);
}
on_enqueued-Promises site id (err x) s h = record { stored = λ a e q. cc }

enqueue_message-Promises :
    (site : Site)
    → IsDigest site.jobs.codec
    → (event : JobEvent) (id : Text) (s : AppState)
    → Promises site (enqueue_message site event id s)
unfolding enqueue_message enqueue_guarded run_blocking_operation
enqueue_message-Promises site d event id s =
    on_enqueued-Promises site id (enqueue_sync site.jobs id event s.message_jobs.jobs).0 _ (
      enqueued-stored site.jobs id (job_files s.message_jobs.jobs.files)
        (enqueue_sync site.jobs id event s.message_jobs.jobs)
        (enqueue-Outcome site.jobs d id event s.message_jobs.jobs))

ignored_id :
    (o : Option Text) (a : BotAction)
    → admit_message_id o ≡ ok (ignore a)
    → a.action ≡ text "ignored"
unfolding admit_message_id ignored
ignored_id none a h = ground arith
ignored_id (some id) a h = ground arith

ignored_contents :
    (c : EventData) (a : BotAction) → admit_contents c ≡ ok (ignore a) → a.action ≡ text "ignored"
unfolding admit_contents
ignored_contents (payload m) a h = ignored_id m.id a h
ignored_contents (unreadable e) a h = cc

ignored_action :
    (event : SidecarEvent) (a : BotAction)
    → admit_message_job event ≡ ok (ignore a)
    → a.action ≡ text "ignored"
unfolding admit_message_job ignored
ignored_action event a h = ground (arith, ignored_contents event.contents a)

not_queued : (a : BotAction) → a.action ≡ text "ignored" → a.action ≢ text "queued"
unfolding text
not_queued a h = λ q. ground arith

failure-Promises : (site : Site) (e : HttpError) (s : AppState) → Promises site (into_response e, s)
unfolding into_response
failure-Promises site e s = record { stored = λ a p q. cc }

on_admitted-Promises :
    (site : Site)
    → IsDigest site.jobs.codec
    → (event : JobEvent) (r : Result HttpError MessageJobAdmission) (s : AppState)
    → ((a : BotAction) → r ≡ ok (ignore a) → a.action ≡ text "ignored")
    → Promises site (on_admitted site event r s)
unfolding on_admitted accept
on_admitted-Promises site d event (ok (ignore a)) s h = record {
  stored = λ b e q. absurd (not_queued a (h a refl) (ground arith));
}
on_admitted-Promises site d event (ok (queue id)) s h = enqueue_message-Promises site d event id s
on_admitted-Promises site d event (err e) s h = failure-Promises site e s

on_event-Promises :
    (site : Site)
    → IsDigest site.jobs.codec
    → (r : Result Text JobEvent) (s : AppState) → Promises site (on_event site r s)
unfolding on_event
on_event-Promises site d (ok event) s =
    on_admitted-Promises site d event _ s (λ a e. ignored_action (sidecar_event site event) a e)
on_event-Promises site d (err e) s =
    failure-Promises site (bad_request (text "invalid sidecar event payload: " ++ e)) s

on_body-Promises :
    (site : Site)
    → IsDigest site.jobs.codec
    → (r : Result Text (List ℕ)) (s : AppState) → Promises site (on_body site r s)
unfolding on_body
on_body-Promises site d (ok body) s = on_event-Promises site d (site.from_slice body) s
on_body-Promises site d (err e) s =
    failure-Promises site (bad_request (text "failed to read sidecar event body: " ++ e)) s

on_slot-Promises :
    (site : Site)
    → IsDigest site.jobs.codec
    → (request : EventRequest) (free : Bool) (s : AppState)
    → Promises site (on_slot site request free s)
unfolding on_slot
on_slot-Promises site d request true s =
    on_body-Promises site d (request.to_bytes max_event_body_bytes) s
on_slot-Promises site d request false s =
    failure-Promises site (retry_after_error 503 (text "server busy") (from_secs 5)) s

on_authorized-Promises :
    (site : Site)
    → IsDigest site.jobs.codec
    → (request : EventRequest) (r : Result HttpError (Unit {0})) (s : AppState)
    → Promises site (on_authorized site request r s)
unfolding on_authorized
on_authorized-Promises site d request (ok _) s = on_slot-Promises site d request request.slot_free s
on_authorized-Promises site d request (err e) s = failure-Promises site e s

-- When the answer to an event says `queued`, it names a message ID, and the job file of that ID is in
-- the directory of the job store by then, whether it was written for this event or was there before,
-- and whichever calls of the file system failed.
pub queued_event_is_stored :
    (site : Site)
    → IsDigest site.jobs.codec
    → (request : EventRequest) (s : AppState) (a : BotAction)
    → (handle_event site request s).0.body ≡ accepted a
    → a.action ≡ text "queued"
    → (id : Text) × (a.message_id ≡ some id) × IsStored site id (handle_event site request s).1
unfolding handle_event
queued_event_is_stored site d request s a e q =
    (on_authorized-Promises site d request _ s).stored a e q
