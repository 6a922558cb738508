-- ===== src/Jobs/Yields.antt =====
-- Operations of the store that succeed and leave the files (src/message_jobs.rs).
use webex_generic_account_bo.Base.{
  ℕ, ◌≤◌, ◌≡◌, refl, ◌∙◌, subst, Bool, true, List, Result, ok, err, arith, length, ◌&&◌,
}
use webex_generic_account_bo.Jobs.Records.{JobError, max_message_job_record_bytes}
use webex_generic_account_bo.Jobs.Disk.{File, Jobs, J, next, ◌>>=◌, lift}
use webex_generic_account_bo.Jobs.Files.{
  validate_job_file_metadata, check_size, check_unchanged, same_file_snapshot,
}

-- The operation answers by this value, and leaves the files.
pub record Yields {A : Type 0} (a : A) (s : Jobs) (out : Result JobError A × Jobs) : Type 0 where
  pub answer : out.0 ≡ ok a
  pub same : out.1.files ≡ s.files

next-Yields :
    {A B : Type 0} (a : A) (b : B) (r : Result JobError A) (s t : Jobs) (k : A → J B)
    → r ≡ ok a
    → t.files ≡ s.files
    → Yields b t (k a t)
    → Yields b s (next r t k)
next-Yields a b (ok x) s t k e f y =
    let same : a ≡ x = cc in
    subst (λ z. Yields b s (k z t)) same (record { answer = y.answer; same = y.same ∙ f })
next-Yields a b (err x) s t k e f y = absurd (ground arith)

pub bind-Yields :
    {A B : Type 0} (a : A) (b : B) (m : J A) (k : A → J B) (s : Jobs)
    → Yields a s (m s)
    → ((t : Jobs) → t.files ≡ s.files → Yields b t (k a t))
    → Yields b s ((m >>= k) s)
bind-Yields a b m k s y h = next-Yields a b (m s).0 s (m s).1 k y.answer y.same (h (m s).1 y.same)

pub lift-Yields :
    {A : Type 0} (a : A) (r : Result JobError A) (s : Jobs) → r ≡ ok a → Yields a s (lift r s)
lift-Yields a r s e = record { answer = e; same = refl }

pub unchanged_file : (f : File) → check_unchanged (f, 1) (f, 1) f.bytes ≡ ok tt
unfolding check_unchanged same_file_snapshot
unchanged_file f = ground arith

pub private_file : (f : File) → f.is_private ≡ true → validate_job_file_metadata (f, 1) 1 ≡ ok tt
unfolding validate_job_file_metadata
private_file f h = ground arith

pub small_file :
    (bytes : List ℕ) → length bytes ≤ max_message_job_record_bytes → check_size bytes ≡ ok tt
unfolding check_size
small_file bytes h = ground arith

pub &&-left : (a b : Bool) → (a && b) ≡ true → a ≡ true
&&-left a b h = ground arith

pub &&-right : (a b : Bool) → (a && b) ≡ true → b ≡ true
&&-right a b h = ground arith
