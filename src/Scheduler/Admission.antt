-- ===== src/Scheduler/Admission.antt =====
-- Which events are queued, and which are answered at once (`admit_message_job` of src/main.rs).
use webex_generic_account_bo.Base.{
  ◌≡◌, refl, subst, Bool, true, false, not, ◌||◌, ◌==◌, Option, none, some, Result, ok, err,
  if◌then◌else◌,
}
use webex_generic_account_bo.Text.{Text, text, text_eq}
use webex_generic_account_bo.Webex.{SidecarEvent, EventData, payload, unreadable, HttpError}
use webex_generic_account_bo.Bot.{
  App, BotAction, History, M, process_event, process_contents, process_payload, process_id,
}
use webex_generic_account_bo.Scheduler.Pending.{validate_message_id}
use webex_generic_account_bo.Scheduler.Defs.{
  MessageJobAdmission, ignore, queue, admit_message_job, admit_contents, admit_message_id,
}

-- What the direct processing of an event does, where the admission does not queue it.
abbrev Agrees :
    Result HttpError MessageJobAdmission → History → Result HttpError BotAction × History → Type 0
Agrees (ok (ignore action)) h out = out ≡ (ok action, h)
Agrees (ok (queue id)) h out = Unit
Agrees (err e) h out = Unit

either-Agrees :
    (b : Bool) (x y : Result HttpError MessageJobAdmission) (f g : M BotAction) (h : History)
    → Agrees x h (f h)
    → Agrees y h (g h)
    → Agrees (if b then x else y) h ((if b then f else g) h)
either-Agrees true x y f g h p q = p
either-Agrees false x y f g h p q = q

queued-Agrees :
    (b : Bool) (id : Text) (e : HttpError) (h : History)
    (out : Result HttpError BotAction × History)
    → Agrees (if b then ok (queue id) else err e) h out
queued-Agrees true id e h out = tt
queued-Agrees false id e h out = tt

id-Agrees :
    (app : App) (o : Option Text) (h : History) → Agrees (admit_message_id o) h (process_id app o h)
unfolding admit_message_id process_id
id-Agrees app none h = refl
id-Agrees app (some id) h = queued-Agrees (validate_message_id id) id _ h _

contents-Agrees :
    (app : App) (d : EventData) (h : History)
    → Agrees (admit_contents d) h (process_contents app d h)
unfolding admit_contents process_contents process_payload
contents-Agrees app (payload m) h = id-Agrees app m.id h
contents-Agrees app (unreadable e) h = tt

event-Agrees :
    (app : App) (event : SidecarEvent) (h : History)
    → Agrees (admit_message_job event) h (process_event app event h)
unfolding admit_message_job process_event
event-Agrees app event h = either-Agrees (not (event.version == 1)) _ _ _ _ h refl (
    either-Agrees
      (not (text_eq event.resource (text "messages")) || not (text_eq event.event (text "created")))
      _ _ _ _ h refl (contents-Agrees app event.contents h))

-- An event that the admission answers at once, without a job, is one that its processing would have
-- answered with the same action, without any call.
pub ignored_event_agrees :
    (app : App) (event : SidecarEvent) (action : BotAction) (h : History)
    → admit_message_job event ≡ ok (ignore action)
    → process_event app event h ≡ (ok action, h)
ignored_event_agrees app event action h e =
    subst (λ r. Agrees r h (process_event app event h)) e (event-Agrees app event h)
