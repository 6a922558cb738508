-- ===== src/Checks/Replies.antt =====
-- Jenkins replies, at concrete answers.
use webex_generic_account_bo.Base.{◌≤◌, ◌≡◌, refl, true, none, some, [], ◌∷◌, length, ok}
use webex_generic_account_bo.Text.{
  Text, text, text_eq, trim, trim_end, strip_prefix, contains, from_utf8,
}
use webex_generic_account_bo.Text.Utf8.{first_byte}
use webex_generic_account_bo.Policy.{trim_to_chars}
use webex_generic_account_bo.Config.{jenkins_diagnosis_json, jenkins_followup_json}
use webex_generic_account_bo.Jenkins.{
  ReplyReaders, inline_code, EvidenceLogs, JenkinsEvidenceLog, find_log, escape_markdown_plain_text,
  render_reply_text_with_verified_excerpt, verified_jenkins_excerpt, normalized_jenkins_console_url,
}
use webex_generic_account_bo.Jenkins.Escaping.{shown_text, shown_text-escape_markdown_plain_text}
use webex_generic_account_bo.Jenkins.Brackets.{link_targets}
use webex_generic_account_bo.Jenkins.Links.{AreAllowed, rendered_links-AreAllowed}
use webex_generic_account_bo.Jenkins.Evidence.{IsEvidence, verified_excerpt-IsEvidence}

shown_text-escape_markdown_plain_text_example :
    shown_text (escape_markdown_plain_text (text "a_<b>&amp;")) ≡ some (text "a_<b>&amp;")
shown_text-escape_markdown_plain_text_example =
    shown_text-escape_markdown_plain_text (text "a_<b>&amp;")

abbrev url : Text
url = text "https://ci/1/console"

abbrev readers : ReplyReaders
readers = record {
  diagnosis = λ json. none;
  followup = λ json. some (record {
    answer = text "See <here>";
    include_evidence = true;
    log_url = some url;
    excerpt = some (text "boom");
    excerpt_format = inline_code;
  });
}

rendered_links-AreAllowed_example :
    AreAllowed (url ∷ []) (
      link_targets (
        render_reply_text_with_verified_excerpt readers jenkins_diagnosis_json
          (text "{}")
          (url ∷ [])
          none))
    × AreAllowed (url ∷ []) (
        link_targets (
          render_reply_text_with_verified_excerpt readers jenkins_followup_json
            (text "{}")
            (url ∷ [])
            none))
unfolding normalized_jenkins_console_url text trim strip_prefix contains text_eq trim_end
rendered_links-AreAllowed_example = rendered_links-AreAllowed readers (text "{}") (url ∷ []) refl

abbrev evidence : EvidenceLogs
evidence = record {
  logs = (url, record { path = text "/tmp/log"; sha256 = 11 ∷ [] }) ∷ [];
  read = λ path. ok (text "build: boom");
  digest = λ bytes. length bytes ∷ [];
}

verified_excerpt-IsEvidence_example :
    (u : Text) × (entry : JenkinsEvidenceLog) × (find_log u evidence.logs ≡ some entry)
    × IsEvidence evidence (text "boom") entry
    × (length (text "boom") ≤ 252)
unfolding verified_jenkins_excerpt normalized_jenkins_console_url text trim strip_prefix contains
    text_eq from_utf8 trim_end first_byte trim_to_chars
verified_excerpt-IsEvidence_example =
    verified_excerpt-IsEvidence readers evidence jenkins_followup_json (text "{}") (text "boom")
      refl
