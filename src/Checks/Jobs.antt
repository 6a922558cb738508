-- ===== src/Checks/Jobs.antt =====
-- The scheduler, at concrete jobs.
use webex_generic_account_bo.Base.{
  ok, some, none, ◌≤◌, ◌≡◌, refl, true, List, [], ◌∷◌, length, from_secs, arith,
}
use webex_generic_account_bo.Text.{text, text_eq}
use webex_generic_account_bo.Scheduler.{
  admit_message_job, Scheduler, Entry, retry_after, idle, Reachable, starts, steps, schedules,
  schedule_message_job, record_message_job_outcome,
}
use webex_generic_account_bo.Scheduler.Bounds.{no_repeats, Reachable-IsValid}
use webex_generic_account_bo.Scheduler.Deferral.{Call, handles, rescans, ends, run_calls, copies}
use webex_generic_account_bo.Scheduler.Waiting.{retry_waits_for_its_delay}
use webex_generic_account_bo.Webex.{SidecarEvent}
use webex_generic_account_bo.Bot.{process_event, ignored}
use webex_generic_account_bo.Checks.Samples.{app, event}
use webex_generic_account_bo.Scheduler.Admission.{ignored_event_agrees}

-- Two jobs are scheduled, with one slot.
abbrev two_scheduled : Scheduler
two_scheduled = schedule_message_job 1 5 (text "b") (schedule_message_job 1 5 (text "a") idle)

two_scheduled-Reachable : Reachable 1 two_scheduled
two_scheduled-Reachable =
    steps (steps starts (schedules 5 (text "a") idle)) (schedules 5 (text "b") _)

Reachable-IsValid_example :
    (two_scheduled.tasks ≡ two_scheduled.active)
    × (length two_scheduled.active ≤ 1)
    × (no_repeats two_scheduled.active ≡ true)
Reachable-IsValid_example = Reachable-IsValid 1 two_scheduled two_scheduled-Reachable

abbrev one_running : Scheduler
one_running = record { active = text "a" ∷ []; deferred = []; tasks = text "a" ∷ [] }

-- The job ends, is scheduled and found by a rescan, all within its delay.
abbrev early_calls : List Call
early_calls = ends (text "a") ∷ handles 6 (text "a") ∷ rescans 7 8 ((9, text "a") ∷ []) ∷ []

retry_waits_for_its_delay_example :
    copies
      (text "a")
      (run_calls 4 early_calls
        (record_message_job_outcome 5 (text "a") (retry_after (from_secs 30)) one_running)).tasks
    ≤ copies (text "a") one_running.tasks
retry_waits_for_its_delay_example =
    retry_waits_for_its_delay 4 5 (text "a") (from_secs 30) one_running early_calls
      (tt, (omega arith, ((omega arith, omega arith), tt)))

abbrev entries : List Entry
entries = (9, text "a") ∷ (3, text "b") ∷ (5, text "c") ∷ []

-- An event that is not about messages.
abbrev room_event : SidecarEvent
room_event = record event { resource = text "rooms" }

ignored_event_agrees_example :
    process_event app room_event []
    ≡ (ok (ignored (text "unsupported_event") (some (text "rooms")) none), [])
unfolding admit_message_job text text_eq
ignored_event_agrees_example =
    ignored_event_agrees app room_event
      (ignored (text "unsupported_event") (some (text "rooms")) none) [] refl
