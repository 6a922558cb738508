-- ===== src/Bot/Attempts.antt =====
-- What an event does to its attempt, to the rooms, and to Codex (`process_event` of src/main.rs).
use webex_generic_account_bo.Base.{
  suc, ◌≤◌, ◌≡◌, refl, subst, Bool, true, false, not, ◌||◌, Option, none, some, List, [], ◌∷◌,
  Result, ok, err, Duration, arith, if◌then◌else◌, is_ok, is_some, ◌==◌,
}
use webex_generic_account_bo.Text.{Text, text, text_eq}
use webex_generic_account_bo.Config.{attempt_lease}
use webex_generic_account_bo.Webex.{HttpError, SidecarEvent, EventData, payload, unreadable}
use webex_generic_account_bo.Bot.Monad.{
  App, AttemptLease, AttemptStart, started, processed, leased, History, M, next, of_store, began,
}
use webex_generic_account_bo.Bot.Actions.{BotAction}
use webex_generic_account_bo.Bot.Failures.{begin_attempt, unavailable}
use webex_generic_account_bo.Bot.Process.{
  process_attempt, process_started, process_id, process_payload, process_contents, process_event,
}
use webex_generic_account_bo.Bot.Settling.{
  Settlement, settlements, runs, is_retryable, drop_last, last_lease, last_delay, WritesAllowed,
  attempt-Settled,
}

last_settlement :
    (s : List Settlement) (t : List Settlement) (a : AttemptLease)
    → drop_last s ≡ t
    → last_lease s ≡ some a
    → s ≡ (a, last_delay s) ∷ t
last_settlement [] t a p q = absurd (ground arith)
last_settlement (x ∷ s) t a p q = ground arith

-- An attempt that was started makes exactly one settling call to the store, and for its own lease:
-- its history has one settlement more than before, which either marks the lease processed or
-- defers it.
pub attempt_settles_once :
    (app : App) (id : Text) (a : AttemptLease) (h : History)
    → (d : Option Duration) × (settlements (process_attempt app id a h).1 ≡ (a, d) ∷ settlements h)
attempt_settles_once app id a h =
    let s = attempt-Settled app id a h in
    (_, last_settlement (settlements (process_attempt app id a h).1) _ a s.once s.own)

-- An attempt that ends in an action, not in an error, made one settling call: the one that marks
-- its own lease processed.
pub successful_attempt_is_marked :
    (app : App) (id : Text) (a : AttemptLease) (h : History)
    → is_ok (process_attempt app id a h).0 ≡ true
    → settlements (process_attempt app id a h).1 ≡ (a, none) ∷ settlements h
successful_attempt_is_marked app id a h o =
    let s = attempt-Settled app id a h in
    ground (
      arith,
      last_settlement (settlements (process_attempt app id a h).1) _ a s.once s.own,
      s.marks o,
    )

-- An attempt that ends in an error reports status 503 and a delay after which to retry.
pub failed_attempt_is_retried :
    (app : App) (id : Text) (a : AttemptLease) (h : History) (e : HttpError)
    → (process_attempt app id a h).0 ≡ err e
    → (e.status ≡ 503) × (is_some e.retry_after ≡ true)
failed_attempt_is_retried app id a h e q =
    let s = attempt-Settled app id a h in
    let r = subst (λ o. is_retryable o ≡ true) q s.retries in ground (arith, r)

-- What an event does from a history on: Codex runs at most once, and the messages that are posted
-- stay out of the read-only source rooms.
record Bounded (app : App) (h : History) (out : Result HttpError BotAction × History) : Type 0 where
  one_run : runs out.1 ≤ suc (runs h)
  writes : WritesAllowed app.config h → WritesAllowed app.config out.1

on_started-Bounded :
    (app : App) (id : Text) (r : Result HttpError AttemptStart) (h : History)
    → Bounded app h (next r h (process_started app id))
unfolding process_started unavailable
on_started-Bounded app id (ok (started a)) h =
    let s = attempt-Settled app id a h in record { one_run = s.one_run; writes = s.writes }
on_started-Bounded app id (ok processed) h = ground arith
on_started-Bounded app id (ok (leased d)) h = ground arith
on_started-Bounded app id (err e) h = ground arith

Bounded-began :
    (app : App) (id : Text) (d : Duration) (h : History)
    (out : Result HttpError BotAction × History)
    → Bounded app (began id d ∷ h) out
    → Bounded app h out
Bounded-began app id d h out b = record { one_run = b.one_run; writes = b.writes }

process_id-Bounded :
    (app : App) (o : Option Text) (h : History) → Bounded app h (process_id app o h)
unfolding process_id begin_attempt
process_id-Bounded app none h = ground arith
process_id-Bounded app (some id) h = Bounded-began app id _ h _ (on_started-Bounded app id _ _)

process_contents-Bounded :
    (app : App) (d : EventData) (h : History) → Bounded app h (process_contents app d h)
unfolding process_contents process_payload
process_contents-Bounded app (payload m) h = process_id-Bounded app m.id h
process_contents-Bounded app (unreadable e) h = ground arith

if-Bounded :
    (app : App) (b : Bool) (x y : M BotAction) (h : History)
    → Bounded app h (x h)
    → Bounded app h (y h)
    → Bounded app h ((if b then x else y) h)
if-Bounded app true x y h p q = p
if-Bounded app false x y h p q = q

process_event-Bounded :
    (app : App) (event : SidecarEvent) (h : History) → Bounded app h (process_event app event h)
unfolding process_event
process_event-Bounded app event h = if-Bounded app (not (event.version == 1)) _ _ h (ground arith) (
    if-Bounded app
      (not (text_eq event.resource (text "messages")) || not (text_eq event.event (text "created")))
      _ _ h (ground arith) (process_contents-Bounded app event.contents h))

-- Whatever the services answer, one event runs Codex at most once.
pub event_runs_codex_at_most_once :
    (app : App) (event : SidecarEvent) (h : History)
    → runs (process_event app event h).1 ≤ suc (runs h)
event_runs_codex_at_most_once app event h = (process_event-Bounded app event h).one_run

-- Whatever the services answer, no event posts a message into a room that a policy names as its
-- read-only source: where no earlier call did, none does after the event.
pub event_writes_into_no_read_only_source :
    (app : App) (event : SidecarEvent) (h : History)
    → WritesAllowed app.config h
    → WritesAllowed app.config (process_event app event h).1
event_writes_into_no_read_only_source app event h = (process_event-Bounded app event h).writes

-- A message whose attempt the store does not start, for it is processed already, leased to another
-- attempt, or the store fails, makes no other call than the one to the store.
pub refused_attempt_calls_nothing :
    (app : App) (id : Text) (h : History)
    → ((a : AttemptLease)
        → ¬ (app.store_begin h id (attempt_lease app.config.server) ≡ ok (started a)))
    → (process_id app (some id) h).1 ≡ began id (attempt_lease app.config.server) ∷ h
unfolding process_id begin_attempt process_started unavailable
refused_attempt_calls_nothing app id h refused =
    on_answer (app.store_begin h id (attempt_lease app.config.server)) refused
  where
    on_answer :
        (r : Result Text AttemptStart)
        → ((a : AttemptLease) → ¬ (r ≡ ok (started a)))
        → (next
            (of_store r)
            (began id (attempt_lease app.config.server) ∷ h)
            (process_started app id)).1
          ≡ began id (attempt_lease app.config.server) ∷ h
    on_answer (ok (started a)) n = absurd (n a refl)
    on_answer (ok processed) n = refl
    on_answer (ok (leased d)) n = refl
    on_answer (err e) n = refl
