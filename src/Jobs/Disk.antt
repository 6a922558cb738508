-- ===== src/Jobs/Disk.antt =====
-- The directory of the job store, its file operations and the index (src/message_jobs.rs).
--
-- An operation is a function from the state to its result and the next state. Every call of the
-- operating system may fail: the environment says, by the number of the call, whether it does. A
-- write that fails leaves a part of the bytes. A process that is killed is one whose calls fail
-- from some number on. No other process changes the directory, which belongs to the bot alone.
use webex_generic_account_bo.Base.{
  ℕ, suc, max, Bool, true, false, Option, none, some, List, [], ◌∷◌, take, Result, ok, err, ◌==◌,
  is_some, if◌then◌else◌,
}
use webex_generic_account_bo.Text.{Text, text, text_eq}
use webex_generic_account_bo.Scheduler.{Entry}
use webex_generic_account_bo.Jobs.Records.{Codec, JobError, io_error, not_found}

-- An entry of the directory. Entries with one inode are links of one file. `is_private` is true
-- of a regular file, no symbolic link, owned by the effective user and of mode 0600.
pub record File : Type 0 where
  pub name : Text
  pub inode : ℕ
  pub bytes : List ℕ
  pub is_private : Bool

-- The directory, the index in memory, the counter of candidate names, and the calls made so far.
pub record Jobs : Type 0 where
  pub files : List File
  pub index : List Entry
  pub next_candidate_id : ℕ
  pub calls : ℕ

-- A failing call, and how many bytes it has written.
pub record Env : Type 0 where
  pub codec : Codec
  pub max_pending : ℕ
  -- The time since the epoch in nanoseconds, at a call.
  pub clock : ℕ → ℕ
  pub fault : ℕ → Option ℕ
  -- Whether the directory is a real one, owned by the effective user and of mode 0700.
  pub root_is_private : Bool
  pub process_id : Text
  -- A number in decimal.
  pub decimal : ℕ → Text

abbrev pub J : Type 0 → Type 0
J A = Jobs → Result JobError A × Jobs

-- `?`: an error ends the operation.
abbrev pub next : {A B : Type 0} → Result JobError A → Jobs → (A → J B) → Result JobError B × Jobs
next (ok a) s f = f a s
next (err e) s f = (err e, s)

infixl 5 ◌>>=◌ ◌>>◌
abbrev pub ◌>>=◌ : {A B : Type 0} → J A → (A → J B) → J B
◌>>=◌ m f s = let out = m s in next out.0 out.1 f

abbrev pub ◌>>◌ : {B : Type 0} → J (Unit {0}) → J B → J B
m >> k = m >>= λ _. k

abbrev pub done : {A : Type 0} → A → J A
done a s = (ok a, s)

abbrev pub fail : {A : Type 0} → JobError → J A
fail e s = (err e, s)

abbrev pub lift : {A : Type 0} → Result JobError A → J A
lift r s = (r, s)

-- The state after a call, with these files.
abbrev pub called : Jobs → List File → Jobs
called s files = record {
  files = files;
  index = s.index;
  next_candidate_id = s.next_candidate_id;
  calls = suc s.calls;
}

abbrev pub with_index : Jobs → List Entry → Jobs
with_index s index = record {
  files = s.files;
  index = index;
  next_candidate_id = s.next_candidate_id;
  calls = s.calls;
}

abbrev failed : {A : Type 0} → Result JobError A
failed = err (io_error (text "input/output error"))

unfoldable pub find_file : Text → List File → Option File
find_file name [] = none
find_file name (f ∷ fs) = elim (text_eq name f.name) [ true ↦ some f | false ↦ find_file name fs ]

unfoldable pub remove_name : Text → List File → List File
remove_name name [] = []
remove_name name (f ∷ fs) = elim (text_eq name f.name) [
  | true ↦ remove_name name fs
  | false ↦ f ∷ remove_name name fs
]

-- The number of links of an inode.
unfoldable pub links : ℕ → List File → ℕ
links i [] = 0
links i (f ∷ fs) = if f.inode == i then suc (links i fs) else links i fs

-- An inode that no file has.
unfoldable pub fresh_inode : List File → ℕ
fresh_inode [] = 0
fresh_inode (f ∷ fs) = max (suc f.inode) (fresh_inode fs)

-- A call that answers by the files, and changes none.
unfoldable pub on_query : {A : Type 0} → Option ℕ → (List File → Result JobError A) → J A
on_query (some _) answer s = (failed, called s s.files)
on_query none answer s = (answer s.files, called s s.files)

unfoldable pub query : {A : Type 0} → Env → (List File → Result JobError A) → J A
unfolding on_query
query env answer s = on_query (env.fault s.calls) answer s

abbrev or_not_found : Option File → Result JobError (Unit {0})
or_not_found none = err not_found
or_not_found (some f) = ok tt

-- Opening a file by its name.
unfoldable pub open_file : Env → Text → J (Unit {0})
unfolding query find_file
open_file env name = query env (λ fs. or_not_found (find_file name fs))

-- `sync_all` and `sync_directory`.
unfoldable pub sync : Env → J (Unit {0})
unfolding query
sync env = query env (λ _. ok tt)

-- The bytes of a file, at most so many.
unfoldable pub read_bytes : Env → ℕ → Text → J (List ℕ)
unfolding query find_file
read_bytes env limit name =
    query env
      (λ fs. elim (find_file name fs) [ none ↦ err not_found | some f ↦ ok (take limit f.bytes) ])

-- `OpenOptions::create_new` with mode 0600: a new, empty file, unless the name is taken.
unfoldable pub create_if : Bool → Text → J (Unit {0})
unfolding fresh_inode
create_if true name s = (err (io_error (text "file exists")), called s s.files)
create_if false name s = (
  ok tt,
  called s (
      record { name = name; inode = fresh_inode s.files; bytes = []; is_private = true } ∷ s.files),
)

unfoldable pub on_create : Option ℕ → Text → J (Unit {0})
unfolding find_file create_if
on_create (some _) name s = (failed, called s s.files)
on_create none name s = create_if (is_some (find_file name s.files)) name s

unfoldable pub create_private_file : Env → Text → J (Unit {0})
unfolding on_create
create_private_file env name s = on_create (env.fault s.calls) name s

-- The files after a write to the file of a name.
unfoldable pub write_to : Text → List ℕ → List File → List File
write_to name bytes [] = []
write_to name bytes (f ∷ fs) = elim (text_eq name f.name) [
  | true ↦
      record { name = f.name; inode = f.inode; bytes = bytes; is_private = f.is_private }
      ∷ write_to name bytes fs
  | false ↦ f ∷ write_to name bytes fs
]

-- `write_all` to a file just created, which has no other link.
unfoldable pub on_write : Option ℕ → Text → List ℕ → J (Unit {0})
unfolding write_to
on_write (some n) name bytes s = (failed, called s (write_to name (take n bytes) s.files))
on_write none name bytes s = (ok tt, called s (write_to name bytes s.files))

unfoldable pub write_all : Env → Text → List ℕ → J (Unit {0})
unfolding on_write
write_all env name bytes s = on_write (env.fault s.calls) name bytes s

-- Whether `hard_link` made the link, found the name taken, or failed.
pub data Linked : Type 0 where
  linked : Linked
  already_exists : Linked
  not_linked : JobError → Linked

unfoldable pub link_file : Text → Option File → Option File → Jobs → Linked × Jobs
link_file to from (some _) s = (already_exists, called s s.files)
link_file to none none s = (not_linked not_found, called s s.files)
link_file to (some f) none s = (
  linked,
  called s
      (record { name = to; inode = f.inode; bytes = f.bytes; is_private = f.is_private } ∷ s.files),
)

unfoldable pub on_hard_link : Option ℕ → Text → Text → Jobs → Linked × Jobs
unfolding link_file find_file
on_hard_link (some _) from to s =
    (not_linked (io_error (text "input/output error")), called s s.files)
on_hard_link none from to s = link_file to (find_file from s.files) (find_file to s.files) s

unfoldable pub hard_link : Env → Text → Text → Jobs → Linked × Jobs
unfolding on_hard_link
hard_link env from to s = on_hard_link (env.fault s.calls) from to s

unfoldable pub remove_if : Bool → Text → J (Unit {0})
unfolding remove_name
remove_if true name s = (ok tt, called s (remove_name name s.files))
remove_if false name s = (err not_found, called s s.files)

unfoldable pub on_remove : Option ℕ → Text → J (Unit {0})
unfolding find_file remove_if
on_remove (some _) name s = (failed, called s s.files)
on_remove none name s = remove_if (is_some (find_file name s.files)) name s

-- `fs::remove_file`.
unfoldable pub remove_file : Env → Text → J (Unit {0})
unfolding on_remove
remove_file env name s = on_remove (env.fault s.calls) name s
