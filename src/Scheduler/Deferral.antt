-- ===== src/Scheduler/Deferral.antt =====
-- A deferred job under calls that come one after another (src/main.rs).
use webex_generic_account_bo.Base.{
  ℕ, ◌+◌, ◌≤◌, ◌<◌, ◌≡◌, refl, sym, subst, Bool, true, false, ◌&&◌, Bool-cases, inl, inr, List, [],
  ◌∷◌, All, any, keep, leb, ltb, arith, if◌then◌else◌,
}
use webex_generic_account_bo.Text.{Text, text_eq, text_eq_sound}
use webex_generic_account_bo.Scheduler.Pending.{Entry}
use webex_generic_account_bo.Scheduler.Defs.{
  Scheduler, MessageJobRunOutcome, complete, stopped, retry_after, remove_job, insert_job,
  is_deferred, schedule_message_job, schedule_pending_message_jobs, schedule_all,
  record_message_job_outcome, drop_guard, end_task, activate,
}

-- A call by the event handler, a rescan, and the two blocks at the end of a task.
pub data Call : Type 0 where
  handles : ℕ → Text → Call
  rescans : ℕ → ℕ → List Entry → Call
  records : ℕ → Text → MessageJobRunOutcome → Call
  ends : Text → Call

unfoldable pub run_call : ℕ → Call → Scheduler → Scheduler
run_call n (handles now id) s = schedule_message_job n now id s
run_call n (rescans now later entries) s = schedule_pending_message_jobs n now later entries s
run_call n (records now id o) s = record_message_job_outcome now id o s
run_call n (ends id) s = drop_guard id s

unfoldable pub run_calls : ℕ → List Call → Scheduler → Scheduler
unfolding run_call
run_calls n [] s = s
run_calls n (c ∷ cs) s = run_calls n cs (run_call n c s)

-- A call before a time that records no further outcome of a job.
abbrev pub IsBefore : ℕ → Text → Call → Type 0
IsBefore t id (handles now x) = now < t
IsBefore t id (rescans now later entries) = (now < t) × (later < t)
IsBefore t id (records now x o) = text_eq x id ≡ false
IsBefore t id (ends x) = Unit

-- How often a job runs.
abbrev pub copies : Text → List Text → ℕ
copies id [] = 0
copies id (t ∷ ts) = (if text_eq t id then 1 else 0) + copies id ts

-- The job is deferred until a time, or longer.
abbrev pub is_held : ℕ → Text → List (Text × ℕ) → Bool
is_held t id ds = any (λ d. text_eq d.0 id && leb t d.1) ds

-- The job stays deferred, and is started no further time.
pub record IsHeld (t : ℕ) (id : Text) (before after : Scheduler) : Type 0 where
  pub held : is_held t id after.deferred ≡ true
  pub fewer : copies id after.tasks ≤ copies id before.tasks

held_is_deferred :
    (t now : ℕ) (id : Text) (ds : List (Text × ℕ))
    → now < t
    → is_held t id ds ≡ true
    → is_deferred now id ds ≡ true
unfolding is_deferred
held_is_deferred t now id [] l h = cc
held_is_deferred t now id (d ∷ ds) l h = ground (arith, held_is_deferred t now id ds l)

other_name : (x y id : Text) → text_eq x id ≡ false → text_eq y id ≡ true → text_eq y x ≡ false
other_name x y id h p = elim (Bool-cases (text_eq y x)) [
  | inl e ↦ absurd (ground (arith, h, subst (λ z. text_eq z id ≡ true) (text_eq_sound y x e) p))
  | inr e ↦ e
]

held-remove_job :
    (t : ℕ) (id x : Text) (ds : List (Text × ℕ))
    → text_eq x id ≡ false
    → is_held t id ds ≡ true
    → is_held t id (remove_job x ds) ≡ true
unfolding remove_job
held-remove_job t id x [] n h = h
held-remove_job t id x (d ∷ ds) n h =
    ground (arith, held-remove_job t id x ds n, other_name x d.0 id n)

held-pruned :
    (t now : ℕ) (id : Text) (ds : List (Text × ℕ))
    → now < t
    → is_held t id ds ≡ true
    → is_held t id (keep (λ d. ltb now d.1) ds) ≡ true
held-pruned t now id [] l h = h
held-pruned t now id (d ∷ ds) l h = ground (arith, held-pruned t now id ds l)

schedule_same :
    (n t now : ℕ) (id : Text) (s : Scheduler)
    → now < t
    → is_held t id s.deferred ≡ true
    → schedule_message_job n now id s ≡ s
unfolding schedule_message_job
schedule_same n t now id s l h = rw (held_is_deferred t now id s.deferred l h) refl

schedule_other-IsHeld :
    (n t now : ℕ) (id x : Text) (s : Scheduler)
    → text_eq x id ≡ false
    → is_held t id s.deferred ≡ true
    → IsHeld t id s (schedule_message_job n now x s)
unfolding schedule_message_job activate
schedule_other-IsHeld n t now id x s p h = record {
  held = ground (arith, held-remove_job t id x s.deferred p h);
  fewer = ground arith;
}

schedule-IsHeld :
    (n t now : ℕ) (id x : Text) (s : Scheduler)
    → now < t
    → is_held t id s.deferred ≡ true
    → IsHeld t id s (schedule_message_job n now x s)
schedule-IsHeld n t now id x s l h = elim (Bool-cases (text_eq x id)) [
  | inl e ↦
      subst (λ y. IsHeld t id s (schedule_message_job n now y s)) (sym (text_eq_sound x id e))
        (subst (IsHeld t id s) (sym (schedule_same n t now id s l h))
          (record { held = h; fewer = omega arith }))
  | inr e ↦ schedule_other-IsHeld n t now id x s e h
]

then-IsHeld :
    {t : ℕ} {id : Text} {s u v : Scheduler}
    → IsHeld t id s u
    → (is_held t id u.deferred ≡ true → IsHeld t id u v)
    → IsHeld t id s v
then-IsHeld p q =
    let r = q p.held in record { held = r.held; fewer = omega (arith, p.fewer, r.fewer) }

schedule_all-IsHeld :
    (n t now : ℕ) (id : Text) (ids : List Text) (s : Scheduler)
    → now < t
    → is_held t id s.deferred ≡ true
    → IsHeld t id s (schedule_all n now ids s)
unfolding schedule_all
schedule_all-IsHeld n t now id [] s l h = record { held = h; fewer = omega arith }
schedule_all-IsHeld n t now id (x ∷ xs) s l h =
    then-IsHeld (schedule-IsHeld n t now id x s l h) (schedule_all-IsHeld n t now id xs _ l)

rescan-IsHeld :
    (none_free : Bool) (t : ℕ) (id : Text) (s u : Scheduler)
    → is_held t id s.deferred ≡ true
    → IsHeld t id s u
    → IsHeld t id s (if none_free then s else u)
rescan-IsHeld true t id s u h p = record { held = h; fewer = omega arith }
rescan-IsHeld false t id s u h p = p

record-IsHeld :
    (t now : ℕ) (id x : Text) (o : MessageJobRunOutcome) (s : Scheduler)
    → text_eq x id ≡ false
    → is_held t id s.deferred ≡ true
    → IsHeld t id s (record_message_job_outcome now x o s)
unfolding record_message_job_outcome insert_job
record-IsHeld t now id x (retry_after d) s p h = record {
  held = ground (arith, held-remove_job t id x s.deferred p h);
  fewer = omega arith;
}
record-IsHeld t now id x complete s p h = record {
  held = held-remove_job t id x s.deferred p h;
  fewer = omega arith;
}
record-IsHeld t now id x stopped s p h = record {
  held = held-remove_job t id x s.deferred p h;
  fewer = omega arith;
}

copies-end_task : (id x : Text) (ts : List Text) → copies id (end_task x ts) ≤ copies id ts
unfolding end_task
copies-end_task id x [] = omega arith
copies-end_task id x (t ∷ ts) = ground (arith, copies-end_task id x ts)

call-IsHeld :
    (n t : ℕ) (id : Text) (c : Call) (s : Scheduler)
    → IsBefore t id c
    → is_held t id s.deferred ≡ true
    → IsHeld t id s (run_call n c s)
unfolding run_call schedule_pending_message_jobs drop_guard
call-IsHeld n t id (handles now x) s b h = schedule-IsHeld n t now id x s b h
call-IsHeld n t id (rescans now later entries) s b h = rescan-IsHeld _ t id s _ h (
    then-IsHeld {u = record s { deferred = keep (λ d. ltb now d.1) s.deferred }}
      (record { held = held-pruned t now id s.deferred b.0 h; fewer = omega arith })
      (schedule_all-IsHeld n t later id _ _ b.1))
call-IsHeld n t id (records now x o) s b h = record-IsHeld t now id x o s b h
call-IsHeld n t id (ends x) s b h = record { held = h; fewer = copies-end_task id x s.tasks }

pub calls-IsHeld :
    (n t : ℕ) (id : Text) (cs : List Call) (s : Scheduler)
    → All (IsBefore t id) cs
    → is_held t id s.deferred ≡ true
    → IsHeld t id s (run_calls n cs s)
unfolding run_calls
calls-IsHeld n t id [] s b h = record { held = h; fewer = omega arith }
calls-IsHeld n t id (c ∷ cs) s b h =
    then-IsHeld (call-IsHeld n t id c s b.0 h) (calls-IsHeld n t id cs _ b.1)
