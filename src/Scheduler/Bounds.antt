-- ===== src/Scheduler/Bounds.antt =====
-- How many jobs run at once, and which (src/main.rs).
use webex_generic_account_bo.Base.{
  ℕ, ◌-◌, ◌≤◌, ◌≡◌, refl, subst, ap, ◌∙◌, Bool, true, false, not, ◌&&◌, List, [], ◌∷◌, length, ◌==◌,
  arith, if◌then◌else◌,
}
use webex_generic_account_bo.Text.{Text, text_eq, text_eq_sound, contains_text}
use webex_generic_account_bo.Scheduler.Pending.{Entry}
use webex_generic_account_bo.Scheduler.Defs.{
  Scheduler, MessageJobRunOutcome, complete, stopped, retry_after, remove_job, remove_text,
  activate, schedule_message_job, schedule_all, schedule_pending_message_jobs,
  record_message_job_outcome, drop_guard, is_deferred, end_task,
}
use webex_generic_account_bo.Scheduler.Steps.{
  idle, Step, schedules, rescans, prunes, undefers, activates, records, ends, Reachable, starts,
  steps,
}

-- No text occurs twice.
unfoldable pub no_repeats : List Text → Bool
no_repeats [] = true
no_repeats (s ∷ ss) = not (contains_text s ss) && no_repeats ss

-- The running tasks are the active jobs, there are at most `max_active`, and no job runs twice.
pub record IsValid (max_active : ℕ) (s : Scheduler) : Type 0 where
  pub same : s.tasks ≡ s.active
  pub bounded : length s.active ≤ max_active
  pub distinct : no_repeats s.active ≡ true

activate-IsValid : (n : ℕ) (id : Text) (s : Scheduler) → IsValid n s → IsValid n (activate n id s)
unfolding activate no_repeats
activate-IsValid n id s v = ground (arith, v.same, v.bounded, v.distinct)

with_deferred-IsValid :
    (n : ℕ) (ds : List (Text × ℕ)) (s : Scheduler)
    → IsValid n s
    → IsValid n (record { active = s.active; deferred = ds; tasks = s.tasks })
with_deferred-IsValid n ds s v = record {
  same = v.same;
  bounded = v.bounded;
  distinct = v.distinct;
}

if-IsValid :
    (n : ℕ) (b : Bool) (s t : Scheduler)
    → IsValid n s
    → IsValid n t
    → IsValid n (if b then s else t)
if-IsValid n true s t v w = v
if-IsValid n false s t v w = w

schedule-IsValid :
    (n now : ℕ) (id : Text) (s : Scheduler)
    → IsValid n s
    → IsValid n (schedule_message_job n now id s)
unfolding schedule_message_job
schedule-IsValid n now id s v =
    if-IsValid n (is_deferred now id s.deferred) _ _ v
      (activate-IsValid n id _ (with_deferred-IsValid n (remove_job id s.deferred) s v))

schedule_all-IsValid :
    (n now : ℕ) (ids : List Text) (s : Scheduler)
    → IsValid n s
    → IsValid n (schedule_all n now ids s)
unfolding schedule_all
schedule_all-IsValid n now [] s v = v
schedule_all-IsValid n now (id ∷ ids) s v =
    schedule_all-IsValid n now ids _ (schedule-IsValid n now id s v)

rescan-IsValid :
    (n now later : ℕ) (entries : List Entry) (s : Scheduler)
    → IsValid n s
    → IsValid n (schedule_pending_message_jobs n now later entries s)
unfolding schedule_pending_message_jobs
rescan-IsValid n now later entries s v =
    if-IsValid n (n - length s.active == 0) _ _ v
      (schedule_all-IsValid n later _ _ (with_deferred-IsValid n _ s v))

record-IsValid :
    (n now : ℕ) (id : Text) (o : MessageJobRunOutcome) (s : Scheduler)
    → IsValid n s
    → IsValid n (record_message_job_outcome now id o s)
unfolding record_message_job_outcome
record-IsValid n now id complete s v = with_deferred-IsValid n _ s v
record-IsValid n now id stopped s v = with_deferred-IsValid n _ s v
record-IsValid n now id (retry_after d) s v = with_deferred-IsValid n _ s v

length-remove_text : (id : Text) (ss : List Text) → length (remove_text id ss) ≤ length ss
unfolding remove_text
length-remove_text id [] = omega arith
length-remove_text id (s ∷ ss) = ground (arith, length-remove_text id ss)

contains-remove_text :
    (x id : Text) (ss : List Text)
    → contains_text x ss ≡ false
    → contains_text x (remove_text id ss) ≡ false
unfolding remove_text contains_text
contains-remove_text x id [] h = refl
contains-remove_text x id (s ∷ ss) h = ground (arith, contains-remove_text x id ss)

no_repeats-remove_text :
    (id : Text) (ss : List Text) → no_repeats ss ≡ true → no_repeats (remove_text id ss) ≡ true
unfolding remove_text no_repeats
no_repeats-remove_text id [] h = refl
no_repeats-remove_text id (s ∷ ss) h =
    ground (arith, no_repeats-remove_text id ss, contains-remove_text s id ss)

remove_absent : (id : Text) (ss : List Text) → contains_text id ss ≡ false → remove_text id ss ≡ ss
unfolding remove_text contains_text
remove_absent id [] h = refl
remove_absent id (s ∷ ss) h = ground (arith, remove_absent id ss)

same_absent :
    (x id : Text) (ss : List Text)
    → text_eq x id ≡ true
    → contains_text x ss ≡ false
    → contains_text id ss ≡ false
same_absent x id ss e h = subst (λ y. contains_text y ss ≡ false) (text_eq_sound x id e) h

end_task-distinct :
    (id : Text) (ss : List Text) → no_repeats ss ≡ true → end_task id ss ≡ remove_text id ss
unfolding end_task remove_text no_repeats
end_task-distinct id [] h = refl
end_task-distinct id (s ∷ ss) h =
    ground (arith, end_task-distinct id ss, same_absent s id ss, remove_absent id ss)

drop_guard-IsValid : (n : ℕ) (id : Text) (s : Scheduler) → IsValid n s → IsValid n (drop_guard id s)
unfolding drop_guard
drop_guard-IsValid n id s v = record {
  same = ap (end_task id) v.same ∙ end_task-distinct id s.active v.distinct;
  bounded = omega (arith, v.bounded, length-remove_text id s.active);
  distinct = no_repeats-remove_text id s.active v.distinct;
}

-- In every state that the scheduler reaches, by calls of the handler, rescans and ends of tasks in any
-- order, the running tasks are the active jobs, they are at most `max_active`, and no message is
-- processed by two tasks at once.
pub Reachable-IsValid :
    (n : ℕ) (s : Scheduler)
    → Reachable n s
    → (s.tasks ≡ s.active) × (length s.active ≤ n) × (no_repeats s.active ≡ true)
unfolding idle no_repeats
Reachable-IsValid n s r = let v = valid r in (v.same, v.bounded, v.distinct)
  where
    kept : {s t : Scheduler} → Step n s t → IsValid n s → IsValid n t
    kept (schedules now id s) v = schedule-IsValid n now id s v
    kept (rescans now later entries s) v = rescan-IsValid n now later entries s v
    kept (prunes now s) v = with_deferred-IsValid n _ s v
    kept (undefers id s) v = with_deferred-IsValid n _ s v
    kept (activates id s) v = activate-IsValid n id s v
    kept (records now id o s h) v = record-IsValid n now id o s v
    kept (ends id s h) v = drop_guard-IsValid n id s v

    valid : {s : Scheduler} → Reachable n s → IsValid n s
    valid starts = record { same = refl; bounded = omega arith; distinct = refl }
    valid (steps r t) = kept t (valid r)
