-- ===== src/Jobs/Refinement.antt =====
-- The job store as a set of job files (src/message_jobs.rs).
use webex_generic_account_bo.Base.{
  ℕ, ◌≡◌, refl, sym, ap, subst, Bool, true, false, Option, none, List, [], ◌∷◌, map, All, Result,
  arith,
}
use webex_generic_account_bo.Text.{Text, text_eq, contains_text}
use webex_generic_account_bo.Scheduler.Bounds.{no_repeats}
use webex_generic_account_bo.Jobs.Records.{Codec, JobEvent, JobError, message_job_path}
use webex_generic_account_bo.Jobs.Disk.{File, Jobs, Env, find_file, remove_name, with_index}
use webex_generic_account_bo.Jobs.Enqueue.{MessageJobEnqueueStatus, enqueue_sync}
use webex_generic_account_bo.Jobs.Access.{remove_sync}
use webex_generic_account_bo.Jobs.Names.{IsDigest}
use webex_generic_account_bo.Jobs.Kept.{job_files}
use webex_generic_account_bo.Jobs.Outcomes.{IsJobFile, Outcome, refused, already_there, published}
use webex_generic_account_bo.Jobs.Published.{enqueue-Outcome}
use webex_generic_account_bo.Jobs.Removed.{
  Removal, kept, removed, remove-Removal, Keeps-load, Keeps-count, Keeps-pending, Keeps-open_jobs,
}
use webex_generic_account_bo.Jobs.Requests.{
  Request, enqueues, loads, removes, counts, lists, restarts, Answer, enqueued_as, removed_as, run,
  SpecStep, reads, refuses, finds, publishes, keeps, deletes, with_faults, replay,
}

enqueue-SpecStep :
    (c : Codec) (id : Text) (event : JobEvent) (before : List File)
    (out : Result JobError MessageJobEnqueueStatus × Jobs)
    → Outcome c id before out
    → SpecStep c before (job_files out.1.files) (enqueues id event) (enqueued_as out.0)
enqueue-SpecStep c id event before out (refused p e) = refuses id event out.0 p e
enqueue-SpecStep c id event before out (already_there p e h) = finds id event out.0 p e h
enqueue-SpecStep c id event before out (published f h n p e) = publishes id event out.0 f h n p e

remove-SpecStep :
    (c : Codec) (id : Text) (before : List File) (out : Result JobError Bool × Jobs)
    → Removal (message_job_path c id) before out
    → SpecStep c before (job_files out.1.files) (removes id) (removed_as out.0)
remove-SpecStep c id before out (kept p e) = keeps id out.0 p e
remove-SpecStep c id before out (removed p e) = deletes id out.0 p e

-- The store refines a set of complete job files: seen through the job files in its directory, every
-- request, whichever calls of the file system fail in it, is a step of the specification with its
-- answer. Loading, counting, listing and a restart change nothing. Queueing a job either fails and
-- changes nothing, or finds its file and answers `existing`, or adds one complete file for its ID
-- where there was none and then does not answer `existing`. Removing a job either changes nothing
-- and does not answer `true`, or deletes the file of its ID and does not answer `false`.
pub run-refines :
    (env : Env)
    → IsDigest env.codec
    → (q : Request) (s : Jobs)
    → SpecStep env.codec (job_files s.files) (job_files (run env q s).1.files) q (run env q s).0
unfolding run
run-refines env d (enqueues id event) s =
    enqueue-SpecStep env.codec id event (job_files s.files) (enqueue_sync env id event s)
      (enqueue-Outcome env d id event s)
run-refines env d (loads id) s = reads (loads id) _ refl ((Keeps-load env id).at s)
run-refines env d (removes id) s =
    remove-SpecStep env.codec id (job_files s.files) (remove_sync env id s)
      (remove-Removal env id s)
run-refines env d counts s = reads counts _ refl ((Keeps-count env).at s)
run-refines env d (lists excluded limit) s =
    reads (lists excluded limit) _ refl ((Keeps-pending env excluded limit).at s)
run-refines env d restarts s = reads restarts _ refl ((Keeps-open_jobs env).at (with_index s []))

-- Every job file is complete, and no name occurs twice.
abbrev pub IsComplete : Codec → List File → Type 0
IsComplete c fs =
    All (λ f. (id : Text) × IsJobFile c id f) fs × (no_repeats (map (λ f. f.name) fs) ≡ true)

text_eq_comm : (s t : Text) → text_eq s t ≡ text_eq t s
unfolding text_eq
text_eq_comm [] [] = refl
text_eq_comm [] (b ∷ t) = refl
text_eq_comm (a ∷ s) [] = refl
text_eq_comm (a ∷ s) (b ∷ t) = ground (arith, text_eq_comm s t)

absent_name :
    (name : Text) (fs : List File)
    → find_file name fs ≡ none
    → contains_text name (map (λ f. f.name) fs) ≡ false
unfolding find_file contains_text
absent_name name [] h = refl
absent_name name (f ∷ fs) h = ground (arith, absent_name name fs, text_eq_comm f.name name)

remove_name-All :
    (c : Codec) (name : Text) (fs : List File)
    → All (λ f. (id : Text) × IsJobFile c id f) fs
    → All (λ f. (id : Text) × IsJobFile c id f) (remove_name name fs)
unfolding remove_name
remove_name-All c name [] h = tt
remove_name-All c name (f ∷ fs) h =
    elim (text_eq name f.name)
      as (λ b.
        All (λ f. (id : Text) × IsJobFile c id f)
          (elim b [ true ↦ remove_name name fs | false ↦ f ∷ remove_name name fs ])) [
            | true ↦ remove_name-All c name fs h.1
            | false ↦ (h.0, remove_name-All c name fs h.1)
          ]

contains-remove_name :
    (x name : Text) (fs : List File)
    → contains_text x (map (λ f. f.name) fs) ≡ false
    → contains_text x (map (λ f. f.name) (remove_name name fs)) ≡ false
unfolding remove_name contains_text
contains-remove_name x name [] h = refl
contains-remove_name x name (f ∷ fs) h = ground (arith, contains-remove_name x name fs)

no_repeats-remove_name :
    (name : Text) (fs : List File)
    → no_repeats (map (λ f. f.name) fs) ≡ true
    → no_repeats (map (λ f. f.name) (remove_name name fs)) ≡ true
unfolding remove_name no_repeats
no_repeats-remove_name name [] h = refl
no_repeats-remove_name name (f ∷ fs) h =
    ground (arith, no_repeats-remove_name name fs, contains-remove_name f.name name fs)

unchanged-IsComplete :
    (c : Codec) (before after : List File)
    → after ≡ before
    → IsComplete c before
    → IsComplete c after
unchanged-IsComplete c before after p h = subst (IsComplete c) (sym p) h

SpecStep-IsComplete :
    (c : Codec) (before after : List File) (q : Request) (a : Answer)
    → SpecStep c before after q a
    → IsComplete c before
    → IsComplete c after
unfolding no_repeats
SpecStep-IsComplete c before after _ _ (reads q a o p) h = unchanged-IsComplete c before after p h
SpecStep-IsComplete c before after _ _ (refuses id event r p _) h =
    unchanged-IsComplete c before after p h
SpecStep-IsComplete c before after _ _ (finds id event r p _ _) h =
    unchanged-IsComplete c before after p h
SpecStep-IsComplete c before after _ _ (keeps id r p _) h = unchanged-IsComplete c before after p h
SpecStep-IsComplete c before after _ _ (publishes id event r f j n p _) h =
    subst (IsComplete c) (sym p) (
      ((id, j), h.0),
      ground (
        arith,
        h.1,
        ap (λ x. contains_text x (map (λ f. f.name) before)) j.0,
        absent_name (message_job_path c id) before n,
      ),
    )
SpecStep-IsComplete c before after _ _ (deletes id r p _) h =
    subst (IsComplete c) (sym p)
      (remove_name-All c _ before h.0, no_repeats-remove_name _ before h.1)

-- From a directory without job files on, after any sequence of requests and restarts, with any calls
-- of the file system failing in each of them (so also if the process is killed at any point), every
-- job file is private, bears the name of its message ID, and holds the whole encoding of a record
-- of that ID; and no name occurs twice.
pub replay-IsComplete :
    (env : Env)
    → IsDigest env.codec
    → (requests : List (Request × (ℕ → Option ℕ))) (s : Jobs) → job_files s.files ≡ []
    → IsComplete env.codec (job_files (replay env requests s).files)
unfolding no_repeats replay
replay-IsComplete env d requests s empty =
    go requests s (subst (IsComplete env.codec) (sym empty) (tt, refl))
  where
    go :
        (requests : List (Request × (ℕ → Option ℕ))) (s : Jobs)
        → IsComplete env.codec (job_files s.files)
        → IsComplete env.codec (job_files (replay env requests s).files)
    go [] s h = h
    go ((q, fault) ∷ qs) s h =
        go qs (run (with_faults env fault) q s).1
          (SpecStep-IsComplete env.codec _ _ q _ (run-refines (with_faults env fault) d q s) h)
