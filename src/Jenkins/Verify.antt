-- ===== src/Jenkins/Verify.antt =====
-- Checking the excerpt of a reply against the logs (`verified_jenkins_excerpt` of src/main.rs).
use webex_generic_account_bo.Base.{
  ℕ, true, false, Option, none, some, List, [], ◌∷◌, Result, ok, err, if◌then◌else◌,
}
use webex_generic_account_bo.Text.{Text, text_eq, contains, from_utf8}
use webex_generic_account_bo.Config.{
  ReplyFormat, markdown, jenkins_diagnosis_json, jenkins_followup_json, FilePath,
}
use webex_generic_account_bo.Jenkins.Words.{sanitize_jenkins_excerpt}
use webex_generic_account_bo.Jenkins.Render.{
  JenkinsDiagnosisReply, JenkinsFollowupReply, ReplyReaders, parse_jenkins_diagnosis_json,
  parse_jenkins_followup_json, normalized_jenkins_console_url,
}

-- A prefetched log: its file, and the digest of its content at the time of the prefetch.
pub record JenkinsEvidenceLog : Type 0 where
  pub path : FilePath
  pub sha256 : List ℕ

-- The logs by URL, the file system, and SHA-256.
pub record EvidenceLogs : Type 0 where
  pub logs : List (Text × JenkinsEvidenceLog)
  pub read : FilePath → Result Text (List ℕ)
  pub digest : List ℕ → List ℕ

unfoldable pub find_log : Text → List (Text × JenkinsEvidenceLog) → Option JenkinsEvidenceLog
find_log url [] = none
find_log url ((u, log) ∷ logs) = elim (text_eq url u) [
  | true ↦ some log
  | false ↦ find_log url logs
]

-- The URL and the excerpt of a reply, if it has both.
abbrev both : Option Text → Option Text → Option (Text × Text)
both (some url) (some excerpt) = some (url, excerpt)
both _ _ = none

unfoldable pub diagnosis_evidence : Option JenkinsDiagnosisReply → Option (Text × Text)
diagnosis_evidence none = none
diagnosis_evidence (some reply) = both reply.log_url reply.excerpt

unfoldable pub followup_evidence : Option JenkinsFollowupReply → Option (Text × Text)
followup_evidence none = none
followup_evidence (some reply) =
    if reply.include_evidence then both reply.log_url reply.excerpt else none

unfoldable pub claimed_evidence : ReplyReaders → ReplyFormat → Text → Option (Text × Text)
unfolding diagnosis_evidence followup_evidence parse_jenkins_diagnosis_json
    parse_jenkins_followup_json
claimed_evidence readers jenkins_diagnosis_json output =
    diagnosis_evidence (parse_jenkins_diagnosis_json readers output)
claimed_evidence readers jenkins_followup_json output =
    followup_evidence (parse_jenkins_followup_json readers output)
claimed_evidence readers markdown output = none

-- The excerpt, if the log has it.
unfoldable pub in_log : Text → Option Text → Option Text
in_log excerpt none = none
in_log excerpt (some log) = if contains excerpt log then some excerpt else none

-- The content must still have the digest of the prefetch.
unfoldable pub in_contents :
    EvidenceLogs → JenkinsEvidenceLog → Text → Result Text (List ℕ) → Option Text
unfolding in_log
in_contents e log excerpt (err _) = none
in_contents e log excerpt (ok contents) =
    if text_eq (e.digest contents) log.sha256 then in_log excerpt (from_utf8 contents) else none

unfoldable pub in_file : EvidenceLogs → JenkinsEvidenceLog → Option Text → Option Text
unfolding in_contents
in_file e log none = none
in_file e log (some excerpt) = in_contents e log excerpt (e.read log.path)

unfoldable pub on_log : EvidenceLogs → Text → Option JenkinsEvidenceLog → Option Text
unfolding in_file sanitize_jenkins_excerpt
on_log e excerpt none = none
on_log e excerpt (some log) = in_file e log (sanitize_jenkins_excerpt excerpt)

unfoldable pub on_url : EvidenceLogs → Text → Option Text → Option Text
unfolding on_log find_log
on_url e excerpt none = none
on_url e excerpt (some url) = on_log e excerpt (find_log url e.logs)

unfoldable pub on_claim : EvidenceLogs → Option (Text × Text) → Option Text
unfolding on_url normalized_jenkins_console_url
on_claim e none = none
on_claim e (some (url, excerpt)) = on_url e excerpt (normalized_jenkins_console_url url)

unfoldable pub verified_jenkins_excerpt :
    ReplyReaders → EvidenceLogs → ReplyFormat → Text → Option Text
unfolding on_claim claimed_evidence
verified_jenkins_excerpt readers e format output =
    on_claim e (claimed_evidence readers format output)
