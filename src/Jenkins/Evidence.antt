-- ===== src/Jenkins/Evidence.antt =====
-- Which excerpts are shown (src/main.rs).
use webex_generic_account_bo.Base.{
  ℕ, ◌≤◌, ◌≡◌, refl, Bool, true, false, Option, none, some, List, Result, ok, err, arith,
  if◌then◌else◌, length, sym, ap, subst, ◌∙◌, Bool-cases, inl, inr,
}
use webex_generic_account_bo.Text.{Text, text_eq, text_eq_sound, contains, from_utf8}
use webex_generic_account_bo.Config.{ReplyFormat}
use webex_generic_account_bo.Policy.{trim_to_chars}
use webex_generic_account_bo.Policy.Trimming.{length-trim_to_chars}
use webex_generic_account_bo.Jenkins.Words.{
  sanitize_jenkins_excerpt, jenkins_diagnosis_excerpt_limit,
}
use webex_generic_account_bo.Jenkins.Render.{ReplyReaders, normalized_jenkins_console_url}
use webex_generic_account_bo.Jenkins.Verify.{
  JenkinsEvidenceLog, EvidenceLogs, find_log, claimed_evidence, in_log, in_contents, in_file,
  on_log, on_url, on_claim, verified_jenkins_excerpt,
}

in_log-some :
    (excerpt x : Text) (o : Option Text)
    → in_log excerpt o ≡ some x
    → (log : Text) × (o ≡ some log) × (contains x log ≡ true) × (excerpt ≡ x)
unfolding in_log
in_log-some excerpt x none h = cc
in_log-some excerpt x (some log) h = elim (Bool-cases (contains excerpt log)) [
  | inl has ↦
      let same : excerpt ≡ x = ground (arith, has) in
      (log, refl, ap (λ z. contains z log) (sym same) ∙ has, same)
  | inr lacks ↦ absurd (ground arith)
]

-- The log that an excerpt was found in: its file has the content that was prefetched, and holds the
-- excerpt.
abbrev pub IsEvidence : EvidenceLogs → Text → JenkinsEvidenceLog → Type 0
IsEvidence e x entry =
    (bytes : List ℕ) × (log : Text) × (e.read entry.path ≡ ok bytes)
    × (e.digest bytes ≡ entry.sha256)
    × (from_utf8 bytes ≡ some log)
    × (contains x log ≡ true)

in_contents-some :
    (e : EvidenceLogs) (entry : JenkinsEvidenceLog) (excerpt x : Text) (r : Result Text (List ℕ))
    → e.read entry.path ≡ r
    → in_contents e entry excerpt r ≡ some x
    → IsEvidence e x entry × (excerpt ≡ x)
unfolding in_contents
in_contents-some e entry excerpt x (err _) p h = cc
in_contents-some e entry excerpt x (ok bytes) p h =
    elim (Bool-cases (text_eq (e.digest bytes) entry.sha256)) [
      | inl same ↦
          let found = in_log-some excerpt x (from_utf8 bytes) (ground (arith, same)) in
          (
            (bytes, found.0, p, text_eq_sound (e.digest bytes) entry.sha256 same, found.1, found.2),
            found.3,
          )
      | inr changed ↦ absurd (ground arith)
    ]

trimmed-short :
    (s x : Text) (b : Bool)
    → (if b then none else some (trim_to_chars s jenkins_diagnosis_excerpt_limit)) ≡ some x
    → length x ≤ 252
trimmed-short s x true h = cc
trimmed-short s x false h =
    let same : trim_to_chars s jenkins_diagnosis_excerpt_limit ≡ x = cc in
    subst (λ z. length z ≤ 252) same
      (omega (arith, length-trim_to_chars s jenkins_diagnosis_excerpt_limit))

sanitized-short : (value x : Text) → sanitize_jenkins_excerpt value ≡ some x → length x ≤ 252
unfolding sanitize_jenkins_excerpt
sanitized-short value x h = trimmed-short _ x _ h

in_file-some :
    (e : EvidenceLogs) (entry : JenkinsEvidenceLog) (value x : Text) (o : Option Text)
    → sanitize_jenkins_excerpt value ≡ o
    → in_file e entry o ≡ some x
    → IsEvidence e x entry × (length x ≤ 252)
unfolding in_file
in_file-some e entry value x none p h = cc
in_file-some e entry value x (some excerpt) p h =
    let found = in_contents-some e entry excerpt x (e.read entry.path) refl h in
    (found.0, sanitized-short value x (p ∙ ap some found.1))

on_log-some :
    (e : EvidenceLogs) (excerpt x : Text) (o : Option JenkinsEvidenceLog)
    → on_log e excerpt o ≡ some x
    → (entry : JenkinsEvidenceLog) × (o ≡ some entry) × IsEvidence e x entry × (length x ≤ 252)
unfolding on_log
on_log-some e excerpt x none h = cc
on_log-some e excerpt x (some entry) h =
    let found = in_file-some e entry excerpt x (sanitize_jenkins_excerpt excerpt) refl h in
    (entry, refl, found.0, found.1)

on_url-some :
    (e : EvidenceLogs) (excerpt x : Text) (o : Option Text)
    → on_url e excerpt o ≡ some x
    → (url : Text) × (entry : JenkinsEvidenceLog) × (o ≡ some url)
      × (find_log url e.logs ≡ some entry)
      × IsEvidence e x entry
      × (length x ≤ 252)
unfolding on_url
on_url-some e excerpt x none h = cc
on_url-some e excerpt x (some url) h =
    let found = on_log-some e excerpt x (find_log url e.logs) h in
    (url, found.0, refl, found.1, found.2, found.3)

on_claim-some :
    (e : EvidenceLogs) (x : Text) (o : Option (Text × Text))
    → on_claim e o ≡ some x
    → (url : Text) × (entry : JenkinsEvidenceLog) × (find_log url e.logs ≡ some entry)
      × IsEvidence e x entry
      × (length x ≤ 252)
unfolding on_claim
on_claim-some e x none h = cc
on_claim-some e x (some (claimed, excerpt)) h =
    let found = on_url-some e excerpt x (normalized_jenkins_console_url claimed) h in
    (found.0, found.1, found.3, found.4, found.5)

-- An excerpt is verified only against a prefetched log: the file of the log still has the digest of
-- the prefetch, its content is UTF-8 and contains the excerpt word for word, and the excerpt has at
-- most 252 characters.
pub verified_excerpt-IsEvidence :
    (readers : ReplyReaders) (e : EvidenceLogs) (format : ReplyFormat) (output x : Text)
    → verified_jenkins_excerpt readers e format output ≡ some x
    → (url : Text) × (entry : JenkinsEvidenceLog) × (find_log url e.logs ≡ some entry)
      × IsEvidence e x entry
      × (length x ≤ 252)
unfolding verified_jenkins_excerpt
verified_excerpt-IsEvidence readers e format output x h =
    on_claim-some e x (claimed_evidence readers format output) h
