-- ===== src/Jobs/Serving.antt =====
-- A healthy directory serves its jobs (`load_sync` of src/message_jobs.rs).
use webex_generic_account_bo.Base.{
  ℕ, suc, ◌+◌, ◌≤◌, ◌≡◌, refl, sym, ap, ◌∙◌, subst, true, false, none, some, List, [], ◌∷◌, map,
  all, Result, ok, err, arith, length, take_all,
}
use webex_generic_account_bo.Text.{Text, text_eq, text_eq_refl}
use webex_generic_account_bo.Jobs.Records.{
  JobError, MessageJobRecord, check_message_id, encode_message_job_record,
  decode_message_job_record, message_job_path, max_message_job_record_bytes,
}
use webex_generic_account_bo.Jobs.Disk.{
  File, Jobs, Env, J, ◌>>=◌, ◌>>◌, lift, done, find_file, query, on_query, links, open_file,
  read_bytes,
}
use webex_generic_account_bo.Jobs.Files.{
  is_job_filename, metadata, finish_read, read_body, read_linked, read_job_file, read_dir,
  next_entry, recover_entry, recover_entries, recover_candidates, sync_if, Recovery,
  validate_job_file_metadata, check_size, check_unchanged,
}
use webex_generic_account_bo.Jobs.Index.{
  check_same_id, prepare_root_sync, ensure_private_job_root, register_records,
}
use webex_generic_account_bo.Jobs.Enqueue.{new_record}
use webex_generic_account_bo.Jobs.Access.{load_sync, load_job, on_loaded}
use webex_generic_account_bo.Jobs.Canonical.{ReadsBack, decode-encode, length-encode}
use webex_generic_account_bo.Jobs.Yields.{
  &&-left, &&-right, Yields, bind-Yields, lift-Yields, unchanged_file, private_file, small_file,
}

abbrev counted : Recovery → ℕ → Recovery
counted v n = record {
  removed = v.removed;
  published = v.published;
  job_count = n;
  candidate_count = v.candidate_count;
}

recover_job :
    (env : Env) (v : Recovery) (name : Text) (rest : Recovery → J Recovery) (s : Jobs)
    → is_job_filename name ≡ true
    → suc v.job_count ≤ env.max_pending
    → recover_entry env v name rest s ≡ rest (counted v (suc v.job_count)) s
unfolding recover_entry
recover_job env v name rest s h le = ground arith

module _ (env : Env) (reliable : (n : ℕ) → env.fault n ≡ none) where
  query-Yields :
      {A : Type 0} (a : A) (answer : List File → Result JobError A) (s : Jobs)
      → answer s.files ≡ ok a
      → Yields a s (query env answer s)
  unfolding query on_query
  query-Yields a answer s e =
      subst (λ o. Yields a s (on_query o answer s)) (sym (reliable s.calls))
        (record { answer = e; same = refl })

  module _ (name : Text) (f : File) (fs : List File) (q : MessageJobRecord)
      (found : find_file name fs ≡ some f) (private : f.is_private ≡ true)
      (single : links f.inode fs ≡ 1) (small : length f.bytes ≤ max_message_job_record_bytes)
      (decoded : decode_message_job_record env.codec f.bytes ≡ ok q) where
    metadata-Yields : (s : Jobs) → s.files ≡ fs → Yields (f, 1) s (metadata env name s)
    unfolding metadata
    metadata-Yields s e =
        query-Yields (f, 1) _ s
          (rw e (rw found (ap (λ g. ok (f, links f.inode g)) e ∙ ap (λ n. ok (f, n)) single)))

    finish_read-Yields :
        (s : Jobs) → s.files ≡ fs → Yields q s (finish_read env name (f, 1) f.bytes s)
    unfolding finish_read
    finish_read-Yields s e =
        bind-Yields (f, 1) q (metadata env name) _ s (metadata-Yields s e)
          (λ t p.
            bind-Yields tt q (lift (check_unchanged (f, 1) (f, 1) f.bytes))
              (λ _. lift (decode_message_job_record env.codec f.bytes)) t
              (lift-Yields tt _ t unchanged) (λ u r. lift-Yields q _ u decoded))
      where
        unchanged : check_unchanged (f, 1) (f, 1) f.bytes ≡ ok tt
        unchanged = unchanged_file f

    read_body-Yields : (s : Jobs) → s.files ≡ fs → Yields q s (read_body env name 1 (f, 1) s)
    unfolding read_body read_bytes
    read_body-Yields s e =
        let max = suc max_message_job_record_bytes in
        let all_bytes = take_all max f.bytes (omega (arith, small)) in
        let rest =
          λ (bytes : List ℕ). lift (check_size bytes) >> finish_read env name (f, 1) bytes in
        bind-Yields tt q (lift (validate_job_file_metadata (f, 1) 1))
          (λ _. lift (check_size f.bytes) >> (read_bytes env max name >>= rest)) s
          (lift-Yields tt _ s (private_file f private))
          (λ t p.
            bind-Yields tt q (lift (check_size f.bytes)) (λ _. read_bytes env max name >>= rest) t
              (lift-Yields tt _ t (small_file f.bytes small))
              (λ u r.
                bind-Yields f.bytes q (read_bytes env max name) rest u
                  (query-Yields f.bytes _ u (rw (r ∙ p ∙ e) (rw found (ap ok all_bytes))))
                  (λ v w.
                    bind-Yields tt q (lift (check_size f.bytes))
                      (λ _. finish_read env name (f, 1) f.bytes) v
                      (lift-Yields tt _ v (small_file f.bytes small))
                      (λ x y. finish_read-Yields x (y ∙ w ∙ r ∙ p ∙ e)))))

    read_linked-Yields : (s : Jobs) → s.files ≡ fs → Yields q s (read_linked env name 1 s)
    unfolding read_linked open_file
    read_linked-Yields s e =
        bind-Yields tt q (open_file env name) (λ _. metadata env name >>= read_body env name 1) s
          (query-Yields tt _ s (rw e (rw found refl)))
          (λ t p.
            bind-Yields (f, 1) q (metadata env name) (read_body env name 1) t
              (metadata-Yields t (p ∙ e)) (λ u r. read_body-Yields u (r ∙ p ∙ e)))

  -- Without candidates there is nothing to recover.
  recover_entries-Yields :
      (v : Recovery) (n : ℕ) (names : List Text) (s : Jobs)
      → all is_job_filename names ≡ true
      → n ≤ env.max_pending
      → v.job_count + length names ≡ n
      → Yields (counted v n) s (recover_entries env v names s)
  unfolding recover_entries next_entry
  recover_entries-Yields v n [] s h le e = record {
    answer = ap (λ m. ok (counted v m)) (omega (arith, e));
    same = refl;
  }
  recover_entries-Yields v n (name ∷ names) s h le e =
      let w = counted v (suc v.job_count) in
      let rest = recover_entries-Yields w n names in
      bind-Yields tt (counted v n) (next_entry env)
        (λ _. recover_entry env v name (λ w. recover_entries env w names)) s
        (query-Yields tt _ s refl)
        (λ t p.
          subst (λ out. Yields (counted v n) t out)
            (sym (
              recover_job env v name (λ w. recover_entries env w names) t (&&-left _ _ h)
                (omega (arith, le, e))))
            (rest t (&&-right _ _ h) le (omega (arith, e))))

  recover-Yields :
      (s : Jobs)
      → all is_job_filename (map (λ f. f.name) s.files) ≡ true
      → length (map (λ f. f.name) s.files) ≤ env.max_pending
      → Yields [] s (recover_candidates env s)
  unfolding recover_candidates read_dir sync_if
  recover-Yields s h le =
      let names = map (λ f. f.name) s.files in
      let v : Recovery = record {
        removed = false;
        published = [];
        job_count = 0;
        candidate_count = 0;
      } in
      let finish = λ (v : Recovery). sync_if env v.removed >> done v.published in
      bind-Yields names [] (read_dir env) (λ names. recover_entries env v names >>= finish) s
        (query-Yields names _ s refl)
        (λ t p.
          bind-Yields (counted v (length names)) [] (recover_entries env v names) finish t
            (recover_entries-Yields v (length names) names t h le (omega arith))
            (λ u r. record { answer = refl; same = refl }))

  prepare-Yields :
      (s : Jobs)
      → env.root_is_private ≡ true
      → all is_job_filename (map (λ f. f.name) s.files) ≡ true
      → length (map (λ f. f.name) s.files) ≤ env.max_pending
      → Yields tt s (prepare_root_sync env s)
  unfolding prepare_root_sync ensure_private_job_root register_records
  prepare-Yields s root h le =
      bind-Yields tt tt (ensure_private_job_root env)
        (λ _. recover_candidates env >>= register_records) s (query-Yields tt _ s (rw root refl))
        (λ t p.
          bind-Yields [] tt (recover_candidates env) register_records t
            (recover-Yields t
              (subst (λ fs. all is_job_filename (map (λ f. f.name) fs) ≡ true) (sym p) h)
              (subst (λ fs. length (map (λ f. f.name) fs) ≤ env.max_pending) (sym p) le))
            (λ u r. record { answer = refl; same = refl }))

on_loaded-Yields :
    (id : Text) (q : MessageJobRecord) (s t : Jobs) (r : Result JobError MessageJobRecord)
    → text_eq q.message_id id ≡ true
    → r ≡ ok q
    → t.files ≡ s.files
    → Yields (some q) s (on_loaded id r t)
unfolding on_loaded check_same_id
on_loaded-Yields id q s t (ok p) same e f =
    let here : p ≡ q = cc in
    subst (λ z. Yields (some q) s (on_loaded id (ok z) t)) (sym here)
      (record { answer = ground (arith, same); same = ground (arith, same, f) })
on_loaded-Yields id q s t (err e) same h f = absurd (ground arith)

-- In a private directory of at most the permitted number of files, all of them with names of job
-- files, and when no call of the file system fails, the complete job file of a message ID, with no
-- second link, is loaded: the answer is the record that was queued for that ID.
pub complete_job_is_served :
    (env : Env) (id : Text) (now : ℕ) (f : File) (s : Jobs)
    → ReadsBack env.codec
    → ((n : ℕ) → env.fault n ≡ none)
    → env.root_is_private ≡ true
    → all is_job_filename (map (λ f. f.name) s.files) ≡ true
    → length (map (λ f. f.name) s.files) ≤ env.max_pending
    → check_message_id id ≡ ok tt
    → find_file (message_job_path env.codec id) s.files ≡ some f
    → f.is_private ≡ true
    → links f.inode s.files ≡ 1
    → encode_message_job_record env.codec (new_record id now) ≡ ok f.bytes
    → (load_sync env id s).0 ≡ ok (some (new_record id now))
unfolding load_sync load_job read_job_file on_loaded check_same_id new_record
complete_job_is_served env id now f s back reliable root h le valid found private single encoded =
    let q = new_record id now in
    let name = message_job_path env.codec id in
    let loads =
      bind-Yields tt (some q) (lift (check_message_id id))
        (λ _. prepare_root_sync env >> load_job env id) s (lift-Yields tt _ s valid)
        (λ t p.
          bind-Yields tt (some q) (prepare_root_sync env) (λ _. load_job env id) t
            (prepare-Yields env reliable t root
              (subst (λ fs. all is_job_filename (map (λ f. f.name) fs) ≡ true) (sym p) h)
              (subst (λ fs. length (map (λ f. f.name) fs) ≤ env.max_pending) (sym p) le))
            (λ u r.
              let y =
                read_linked-Yields env reliable name f s.files q found private single
                  (length-encode env.codec q f.bytes encoded)
                  ((decode-encode env.codec back f.bytes q).1 encoded) u (r ∙ p) in
              on_loaded-Yields id q u (read_linked env name 1 u).1 (read_linked env name 1 u).0
                (text_eq_refl id) y.answer y.same)) in
    loads.answer
