-- ===== src/Jenkins/Render.antt =====
-- Rendering a Jenkins reply, and checking its evidence (src/main.rs).
use mathlib.Core.List.{reverse}
use webex_generic_account_bo.Base.{
  ℕ, Bool, true, false, not, ◌&&◌, ◌||◌, Option, none, some, List, [], ◌∷◌, ◌++◌, any, is_empty,
  is_some, ◌==◌, if◌then◌else◌,
}
use webex_generic_account_bo.Text.{
  Text, text, trim, is_whitespace, contains_text, strip_prefix, contains,
}
use webex_generic_account_bo.Config.{
  ReplyFormat, markdown, jenkins_diagnosis_json, jenkins_followup_json,
}
use webex_generic_account_bo.Scheduler.{is_control}
use webex_generic_account_bo.Jenkins.Words.{
  JenkinsDiagnosisExcerptFormat, inline_code, extract_json_object, split_whitespace,
  concise_followup_answer, concise_reason, escape_markdown_plain_text, append_jenkins_excerpt,
}

pub data JenkinsDiagnosisVerdict : Type 0 where
  infra_false_alarm : JenkinsDiagnosisVerdict
  likely_product_test_failure : JenkinsDiagnosisVerdict
  not_enough_evidence : JenkinsDiagnosisVerdict

pub record JenkinsDiagnosisReply : Type 0 where
  pub verdict : JenkinsDiagnosisVerdict
  pub reason : Text
  pub log_url : Option Text
  pub excerpt : Option Text
  pub excerpt_format : JenkinsDiagnosisExcerptFormat

pub record JenkinsFollowupReply : Type 0 where
  pub answer : Text
  pub include_evidence : Bool
  pub log_url : Option Text
  pub excerpt : Option Text
  pub excerpt_format : JenkinsDiagnosisExcerptFormat

-- The readers that serde derives for the two replies.
pub record ReplyReaders : Type 0 where
  pub diagnosis : Text → Option JenkinsDiagnosisReply
  pub followup : Text → Option JenkinsFollowupReply

unfoldable pub drop_slashes : Text → Text
drop_slashes [] = []
drop_slashes (c ∷ s) = elim (c == b'/') [ true ↦ drop_slashes s | false ↦ c ∷ s ]

-- `trim_end_matches('/')`.
unfoldable pub trim_end_slashes : Text → Text
unfolding drop_slashes
trim_end_slashes s = reverse (drop_slashes (reverse s))

-- `str::ends_with`.
unfoldable pub ends_with : Text → Text → Bool
ends_with suffix s = is_some (strip_prefix (reverse suffix) (reverse s))

unfoldable pub starts_with : Text → Text → Bool
starts_with prefix s = is_some (strip_prefix prefix s)

unfoldable pub is_url_char : ℕ → Bool
unfolding is_whitespace is_control
is_url_char c = not (c == b'<' || c == b'>' || is_whitespace c || is_control c)

-- The URL has been trimmed by the caller.
unfoldable pub is_valid_jenkins_console_url : Text → Bool
unfolding starts_with ends_with trim_end_slashes is_url_char
is_valid_jenkins_console_url url =
    (starts_with (text "https://") url || starts_with (text "http://") url)
    && ends_with (text "/console") (trim_end_slashes url)
    && not (contains (text "consoleText") url)
    && not (any (λ c. not (is_url_char c)) url)

unfoldable pub normalized_jenkins_console_url : Text → Option Text
unfolding is_valid_jenkins_console_url trim_end_slashes
normalized_jenkins_console_url url =
    if is_valid_jenkins_console_url (trim url) then some (trim_end_slashes (trim url)) else none

unfoldable pub normalized : Option Text → Option Text
unfolding normalized_jenkins_console_url
normalized none = none
normalized (some url) = normalized_jenkins_console_url url

unfoldable pub if_allowed : List Text → Option Text → Option Text
if_allowed allowed none = none
if_allowed allowed (some url) = if contains_text url allowed then some url else none

-- The URL of a reply, if it is one of the allowed ones.
unfoldable pub requested_log_url : List Text → Option Text → Option Text
unfolding if_allowed normalized
requested_log_url allowed log_url = if_allowed allowed (normalized log_url)

-- A text with a link to a log.
unfoldable pub with_log : Text → Text → Text
with_log shown url = shown ++ (text " [log](<" ++ (url ++ text ">)"))

unfoldable pub followup_with_log :
    Text → Option Text → Option Text → JenkinsDiagnosisExcerptFormat → Text
unfolding append_jenkins_excerpt with_log
followup_with_log answer none excerpt format = answer
followup_with_log answer (some url) excerpt format =
    append_jenkins_excerpt (with_log answer url) excerpt format

unfoldable pub render_jenkins_followup_reply : JenkinsFollowupReply → List Text → Option Text → Text
unfolding followup_with_log escape_markdown_plain_text concise_followup_answer requested_log_url
render_jenkins_followup_reply reply allowed verified_excerpt =
    let answer = escape_markdown_plain_text (concise_followup_answer reply.answer) in
    if reply.include_evidence
    then followup_with_log answer (requested_log_url allowed reply.log_url) verified_excerpt
        reply.excerpt_format
    else answer

unfoldable pub verdict_prefix : JenkinsDiagnosisVerdict → Text
verdict_prefix infra_false_alarm = text "**Jenkins infra false alarm:**"
verdict_prefix likely_product_test_failure = text "**Likely product/test failure:**"
verdict_prefix not_enough_evidence = text "**Not enough evidence:**"

-- A verdict without a reason, and the reason shown for it.
unfoldable pub diagnosis_text : JenkinsDiagnosisVerdict → Text → Text
unfolding verdict_prefix escape_markdown_plain_text concise_reason split_whitespace
diagnosis_text verdict reason =
    if is_empty (split_whitespace reason)
    then verdict_prefix not_enough_evidence
      ++ (text " " ++ text "diagnostic evidence is inconclusive")
    else verdict_prefix verdict ++ (text " " ++ escape_markdown_plain_text (concise_reason reason))

unfoldable pub diagnosis_with_log :
    Text → Option Text → Option Text → Option Text → JenkinsDiagnosisExcerptFormat → Text
unfolding append_jenkins_excerpt with_log
diagnosis_with_log shown (some url) fallback excerpt format =
    append_jenkins_excerpt (with_log shown url) excerpt format
diagnosis_with_log shown none (some url) excerpt format =
    append_jenkins_excerpt (with_log shown url) none format
diagnosis_with_log shown none none excerpt format = shown

unfoldable pub render_jenkins_diagnosis_reply :
    JenkinsDiagnosisReply → List Text → Option Text → Option Text → Text
unfolding diagnosis_with_log diagnosis_text requested_log_url normalized
render_jenkins_diagnosis_reply reply allowed fallback verified_excerpt =
    diagnosis_with_log (diagnosis_text reply.verdict reply.reason)
      (requested_log_url allowed reply.log_url) (normalized fallback) verified_excerpt
      reply.excerpt_format

unfoldable pub parse_json : {A : Type 0} → (Text → Option A) → Option Text → Option A
parse_json read none = none
parse_json read (some json) = read json

-- The only allowed URL.
unfoldable pub fallback_log_url : List Text → Option Text
fallback_log_url (url ∷ []) = some url
fallback_log_url _ = none

-- The reply for an output that holds no diagnosis.
unfoldable pub unparsed_diagnosis : Option Text → JenkinsDiagnosisReply
unparsed_diagnosis fallback = record {
  verdict = not_enough_evidence;
  reason = text "Codex did not return valid diagnosis JSON";
  log_url = fallback;
  excerpt = none;
  excerpt_format = inline_code;
}

unfoldable pub unparsed_followup : JenkinsFollowupReply
unparsed_followup = record {
  answer = text "I could not parse the follow-up answer";
  include_evidence = false;
  log_url = none;
  excerpt = none;
  excerpt_format = inline_code;
}

unfoldable pub on_diagnosis : List Text → Option Text → Option JenkinsDiagnosisReply → Text
unfolding render_jenkins_diagnosis_reply fallback_log_url unparsed_diagnosis
on_diagnosis allowed verified_excerpt (some reply) =
    render_jenkins_diagnosis_reply reply allowed (fallback_log_url allowed) verified_excerpt
on_diagnosis allowed verified_excerpt none =
    render_jenkins_diagnosis_reply (unparsed_diagnosis (fallback_log_url allowed)) allowed
      (fallback_log_url allowed) none

unfoldable pub on_followup : List Text → Option Text → Option JenkinsFollowupReply → Text
unfolding render_jenkins_followup_reply unparsed_followup
on_followup allowed verified_excerpt (some reply) =
    render_jenkins_followup_reply reply allowed verified_excerpt
on_followup allowed verified_excerpt none =
    render_jenkins_followup_reply unparsed_followup allowed none

module _ (readers : ReplyReaders) where
  unfoldable pub parse_jenkins_diagnosis_json : Text → Option JenkinsDiagnosisReply
  unfolding parse_json extract_json_object
  parse_jenkins_diagnosis_json output = parse_json readers.diagnosis (extract_json_object output)

  unfoldable pub parse_jenkins_followup_json : Text → Option JenkinsFollowupReply
  unfolding parse_json extract_json_object
  parse_jenkins_followup_json output = parse_json readers.followup (extract_json_object output)

  unfoldable pub render_reply_text_with_verified_excerpt :
      ReplyFormat → Text → List Text → Option Text → Text
  unfolding on_diagnosis on_followup parse_jenkins_diagnosis_json parse_jenkins_followup_json
  render_reply_text_with_verified_excerpt markdown output allowed verified_excerpt = output
  render_reply_text_with_verified_excerpt jenkins_diagnosis_json output allowed verified_excerpt =
      on_diagnosis allowed verified_excerpt (parse_jenkins_diagnosis_json output)
  render_reply_text_with_verified_excerpt jenkins_followup_json output allowed verified_excerpt =
      on_followup allowed verified_excerpt (parse_jenkins_followup_json output)
