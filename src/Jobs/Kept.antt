-- ===== src/Jobs/Kept.antt =====
-- The operations that leave the job files as they are (src/message_jobs.rs).
use webex_generic_account_bo.Base.{
  ℕ, ◌≡◌, refl, ◌∙◌, subst, Bool, true, false, Option, none, some, List, [], ◌∷◌, keep, Result, ok,
  err, arith, if◌then◌else◌, take,
}
use webex_generic_account_bo.Text.{Text, text_eq, text_eq_sound}
use webex_generic_account_bo.Jobs.Records.{JobError}
use webex_generic_account_bo.Jobs.Disk.{
  File, Jobs, Env, J, next, ◌>>=◌, ◌>>◌, done, fail, lift, query, on_query, sync, open_file,
  read_bytes, create_private_file, on_create, create_if, write_all, on_write, write_to, remove_file,
  on_remove, remove_if, remove_name, find_file,
}
use webex_generic_account_bo.Jobs.Files.{
  is_job_filename, metadata, finish_read, read_body, read_linked, read_job_file,
  read_candidate_file, read_dir, next_entry, list_entries, list_entry, list_job, list_job_files,
  check_published, check_unpublished, check_second_link, check_candidate, recover_candidate,
  recover_entry, recover_entries, sync_if, recover_candidates, Recovery,
}

-- The entries of the directory that are job files.
unfoldable pub job_files : List File → List File
job_files fs = keep (λ f. is_job_filename f.name) fs

-- An operation after which the job files are those from before.
pub record Keeps {A : Type 0} (m : J A) : Type 0 where
  pub at : (s : Jobs) → job_files (m s).1.files ≡ job_files s.files

pub Keeps-done : {A : Type 0} (a : A) → Keeps (done a)
Keeps-done a = record { at = λ s. refl }

pub Keeps-fail : {A : Type 0} (e : JobError) → Keeps (fail {A = A} e)
Keeps-fail e = record { at = λ s. refl }

pub Keeps-lift : {A : Type 0} (r : Result JobError A) → Keeps (lift r)
Keeps-lift r = record { at = λ s. refl }

pub next-Keeps :
    {A B : Type 0} (r : Result JobError A) (s : Jobs) (f : A → J B)
    → ((a : A) → Keeps (f a))
    → job_files (next r s f).1.files ≡ job_files s.files
next-Keeps (ok a) s f k = (k a).at s
next-Keeps (err e) s f k = refl

pub Keeps-bind :
    {A B : Type 0} (m : J A) (f : A → J B) → Keeps m → ((a : A) → Keeps (f a)) → Keeps (m >>= f)
Keeps-bind m f h k = record { at = λ s. next-Keeps (m s).0 (m s).1 f k ∙ h.at s }

pub Keeps-then : {B : Type 0} (m : J (Unit {0})) (k : J B) → Keeps m → Keeps k → Keeps (m >> k)
Keeps-then m k h g = Keeps-bind m (λ _. k) h (λ _. g)

pub Keeps-if : {A : Type 0} (b : Bool) (x y : J A) → Keeps x → Keeps y → Keeps (if b then x else y)
Keeps-if true x y h k = h
Keeps-if false x y h k = k

on_query-Keeps :
    {A : Type 0} (fault : Option ℕ) (answer : List File → Result JobError A)
    → Keeps (on_query fault answer)
unfolding on_query
on_query-Keeps none answer = record { at = λ s. refl }
on_query-Keeps (some n) answer = record { at = λ s. refl }

pub Keeps-query :
    {A : Type 0} (env : Env) (answer : List File → Result JobError A) → Keeps (query env answer)
unfolding query
Keeps-query env answer = record { at = λ s. (on_query-Keeps (env.fault s.calls) answer).at s }

pub Keeps-sync : (env : Env) → Keeps (sync env)
unfolding sync
Keeps-sync env = Keeps-query env _

pub Keeps-open : (env : Env) (name : Text) → Keeps (open_file env name)
unfolding open_file
Keeps-open env name = Keeps-query env _

pub Keeps-metadata : (env : Env) (name : Text) → Keeps (metadata env name)
unfolding metadata
Keeps-metadata env name = Keeps-query env _

pub Keeps-read_bytes : (env : Env) (n : ℕ) (name : Text) → Keeps (read_bytes env n name)
unfolding read_bytes
Keeps-read_bytes env n name = Keeps-query env _

pub Keeps-read_dir : (env : Env) → Keeps (read_dir env)
unfolding read_dir
Keeps-read_dir env = Keeps-query env _

pub Keeps-next_entry : (env : Env) → Keeps (next_entry env)
unfolding next_entry
Keeps-next_entry env = Keeps-query env _

pub ruleset keeps_rules = (
  Keeps-done, Keeps-fail, Keeps-lift, Keeps-bind, Keeps-then, Keeps-if, Keeps-query, Keeps-sync,
  Keeps-open, Keeps-metadata, Keeps-read_bytes, Keeps-read_dir, Keeps-next_entry,
)

pub Keeps-read_linked : (env : Env) (name : Text) (n : ℕ) → Keeps (read_linked env name n)
unfolding read_linked read_body finish_read
Keeps-read_linked env name n = search keeps_rules depth 12

pub Keeps-read_job_file : (env : Env) (name : Text) → Keeps (read_job_file env name)
unfolding read_job_file
Keeps-read_job_file env name = Keeps-read_linked env name 1

pub Keeps-sync_if : (env : Env) (b : Bool) → Keeps (sync_if env b)
unfolding sync_if
Keeps-sync_if env true = Keeps-sync env
Keeps-sync_if env false = Keeps-done tt

list_job-Keeps :
    (env : Env) (name : Text) (rest : J (List Text)) → Keeps rest → Keeps (list_job env name rest)
unfolding list_job
list_job-Keeps env name rest h =
    Keeps-bind _ _ (Keeps-metadata env name) (λ m. Keeps-then _ _ (Keeps-lift _) h)

list_entry-Keeps :
    (env : Env) (found : List Text) (name : Text) (rest : List Text → J (List Text))
    → ((more : List Text) → Keeps (rest more))
    → Keeps (list_entry env found name rest)
unfolding list_entry
list_entry-Keeps env found name rest h = search (keeps_rules, list_job-Keeps, h)

list_entries-Keeps : (env : Env) (found names : List Text) → Keeps (list_entries env found names)
unfolding list_entries
list_entries-Keeps env found [] = Keeps-done found
list_entries-Keeps env found (name ∷ names) =
    Keeps-then _ _ (Keeps-next_entry env)
      (list_entry-Keeps env found name _ (λ more. list_entries-Keeps env more names))

pub Keeps-list_job_files : (env : Env) → Keeps (list_job_files env)
unfolding list_job_files
Keeps-list_job_files env = search (keeps_rules, list_entries-Keeps)

-- The operations on a file that is no job file.
module _ (name : Text) (not_job : is_job_filename name ≡ false) where
  same_name : (f : File) → text_eq name f.name ≡ true → is_job_filename f.name ≡ false
  same_name f e = subst (λ n. is_job_filename n ≡ false) (text_eq_sound name f.name e) not_job

  pub job_files-write_to :
      (bytes : List ℕ) (fs : List File) → job_files (write_to name bytes fs) ≡ job_files fs
  unfolding job_files write_to
  job_files-write_to bytes [] = refl
  job_files-write_to bytes (f ∷ fs) = ground (arith, job_files-write_to bytes fs, same_name f)

  job_files-remove_name : (fs : List File) → job_files (remove_name name fs) ≡ job_files fs
  unfolding job_files remove_name
  job_files-remove_name [] = refl
  job_files-remove_name (f ∷ fs) = ground (arith, job_files-remove_name fs, same_name f)

  pub create_if-Keeps : (taken : Bool) → Keeps (create_if taken name)
  unfolding create_if job_files
  create_if-Keeps true = record { at = λ s. refl }
  create_if-Keeps false = record { at = λ s. ground (arith, not_job) }

  on_create-Keeps : (fault : Option ℕ) → Keeps (on_create fault name)
  unfolding on_create
  on_create-Keeps none = record { at = λ s. (create_if-Keeps _).at s }
  on_create-Keeps (some n) = record { at = λ s. refl }

  pub Keeps-create : (env : Env) → Keeps (create_private_file env name)
  unfolding create_private_file
  Keeps-create env = record { at = λ s. (on_create-Keeps (env.fault s.calls)).at s }

  on_write-Keeps : (fault : Option ℕ) (bytes : List ℕ) → Keeps (on_write fault name bytes)
  unfolding on_write
  on_write-Keeps none bytes = record { at = λ s. job_files-write_to bytes s.files }
  on_write-Keeps (some n) bytes = record { at = λ s. job_files-write_to (take n bytes) s.files }

  pub Keeps-write : (env : Env) (bytes : List ℕ) → Keeps (write_all env name bytes)
  unfolding write_all
  Keeps-write env bytes = record { at = λ s. (on_write-Keeps (env.fault s.calls) bytes).at s }

  remove_if-Keeps : (found : Bool) → Keeps (remove_if found name)
  unfolding remove_if
  remove_if-Keeps true = record { at = λ s. job_files-remove_name s.files }
  remove_if-Keeps false = record { at = λ s. refl }

  on_remove-Keeps : (fault : Option ℕ) → Keeps (on_remove fault name)
  unfolding on_remove
  on_remove-Keeps none = record { at = λ s. (remove_if-Keeps _).at s }
  on_remove-Keeps (some n) = record { at = λ s. refl }

  pub Keeps-remove : (env : Env) → Keeps (remove_file env name)
  unfolding remove_file
  Keeps-remove env = record { at = λ s. (on_remove-Keeps (env.fault s.calls)).at s }

check_published-Keeps :
    (env : Env) (name : Text) (m : File × ℕ) → Keeps (check_published env name m)
unfolding check_published read_candidate_file
check_published-Keeps env name m = search (keeps_rules, Keeps-read_linked)

check_candidate-Keeps :
    (env : Env) (name : Text) (m : File × ℕ) → Keeps (check_candidate env name m)
unfolding check_candidate check_unpublished check_second_link
check_candidate-Keeps env name m = search (keeps_rules, check_published-Keeps)

recover_candidate-Keeps :
    (env : Env) (v : Recovery) (name : Text) (rest : Recovery → J Recovery)
    → is_job_filename name ≡ false
    → ((w : Recovery) → Keeps (rest w))
    → Keeps (recover_candidate env v name rest)
unfolding recover_candidate
recover_candidate-Keeps env v name rest n h = Keeps-bind _ _ (Keeps-metadata env name) (λ m.
    Keeps-bind _ _ (check_candidate-Keeps env name m)
      (λ published. Keeps-then _ _ (Keeps-remove name n env) (h _)))

-- An entry is removed only if its name is not that of a job file.
unless_job-Keeps :
    {A : Type 0} (b : Bool) (x y : J A)
    → Keeps x
    → (b ≡ false → Keeps y)
    → Keeps (if b then x else y)
unless_job-Keeps true x y h k = h
unless_job-Keeps false x y h k = k refl

recover_entry-Keeps :
    (env : Env) (v : Recovery) (name : Text) (rest : Recovery → J Recovery)
    → ((w : Recovery) → Keeps (rest w))
    → Keeps (recover_entry env v name rest)
unfolding recover_entry
recover_entry-Keeps env v name rest h =
    unless_job-Keeps (is_job_filename name) _ _ (search (keeps_rules, h)) (λ n.
      Keeps-if _ _ _ (Keeps-if _ _ _ (Keeps-fail _) (recover_candidate-Keeps env v name rest n h))
        (Keeps-fail _))

recover_entries-Keeps :
    (env : Env) (v : Recovery) (names : List Text) → Keeps (recover_entries env v names)
unfolding recover_entries
recover_entries-Keeps env v [] = Keeps-done v
recover_entries-Keeps env v (name ∷ names) =
    Keeps-then _ _ (Keeps-next_entry env)
      (recover_entry-Keeps env v name _ (λ w. recover_entries-Keeps env w names))

pub Keeps-recover : (env : Env) → Keeps (recover_candidates env)
unfolding recover_candidates
Keeps-recover env = search (keeps_rules, recover_entries-Keeps, Keeps-sync_if)

-- The entry of a job file's name is a job file.
pub find-job_files :
    (name : Text) (fs : List File)
    → is_job_filename name ≡ true
    → find_file name (job_files fs) ≡ find_file name fs
unfolding find_file job_files
find-job_files name [] h = refl
find-job_files name (f ∷ fs) h = ground (
  arith,
  find-job_files name fs,
  λ (e : text_eq name f.name ≡ true).
      subst (λ n. is_job_filename n ≡ true) (text_eq_sound name f.name e) h,
)
