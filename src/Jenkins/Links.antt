-- ===== src/Jenkins/Links.antt =====
-- Which links a Jenkins reply contains (src/main.rs).
use mathlib.Core.List.{reverse}
use webex_generic_account_bo.Base.{
  ◌≡◌, refl, ap, Bool, true, false, not, ◌&&◌, Option, none, some, List, [], ◌∷◌, ◌++◌, any,
  any-append, any-reverse, all, arith, if◌then◌else◌,
}
use webex_generic_account_bo.Text.{
  Text, text, text_eq, text_eq_sound, contains_text, is_some_text, trim,
}
use webex_generic_account_bo.Config.{jenkins_diagnosis_json, jenkins_followup_json}
use webex_generic_account_bo.Jenkins.Words.{
  escape_markdown_plain_text, append_jenkins_excerpt, append_sanitized, and_then_sanitized,
  concise_reason, concise_followup_answer, JenkinsDiagnosisExcerptFormat,
}
use webex_generic_account_bo.Jenkins.Render.{
  JenkinsDiagnosisReply, JenkinsFollowupReply, JenkinsDiagnosisVerdict, infra_false_alarm,
  likely_product_test_failure, not_enough_evidence, ReplyReaders, drop_slashes, trim_end_slashes,
  is_url_char, is_valid_jenkins_console_url, normalized_jenkins_console_url, normalized, if_allowed,
  requested_log_url, with_log, followup_with_log, render_jenkins_followup_reply, verdict_prefix,
  diagnosis_text, diagnosis_with_log, render_jenkins_diagnosis_reply, fallback_log_url,
  unparsed_diagnosis, unparsed_followup, on_diagnosis, on_followup, parse_jenkins_diagnosis_json,
  parse_jenkins_followup_json, render_reply_text_with_verified_excerpt,
}
use webex_generic_account_bo.Jenkins.Escaping.{is_angle, escape_plain}
use webex_generic_account_bo.Jenkins.Brackets.{
  link_targets, link_targets-plain, link_targets-with_log,
}

url_chars : (s : Text) → any (λ c. not (is_url_char c)) s ≡ false → any is_angle s ≡ false
unfolding is_url_char
url_chars [] h = refl
url_chars (c ∷ s) h = ground (arith, url_chars s)

any-drop_slashes : (s : Text) → any is_angle s ≡ false → any is_angle (drop_slashes s) ≡ false
unfolding drop_slashes
any-drop_slashes [] h = refl
any-drop_slashes (c ∷ s) h = ground (arith, any-drop_slashes s)

any-trim_end_slashes :
    (s : Text) → any is_angle s ≡ false → any is_angle (trim_end_slashes s) ≡ false
unfolding trim_end_slashes
any-trim_end_slashes s h =
    any-reverse is_angle (drop_slashes (reverse s))
      (any-drop_slashes (reverse s) (any-reverse is_angle s h))

valid_url-plain : (s : Text) → is_valid_jenkins_console_url s ≡ true → any is_angle s ≡ false
unfolding is_valid_jenkins_console_url
valid_url-plain s h = url_chars s (ground arith)

normalized_url-plain :
    (s url : Text) → normalized_jenkins_console_url s ≡ some url → any is_angle url ≡ false
unfolding normalized_jenkins_console_url
normalized_url-plain s url h =
    ground (arith, valid_url-plain (trim s), any-trim_end_slashes (trim s))

normalized-plain :
    (o : Option Text) (url : Text) → normalized o ≡ some url → any is_angle url ≡ false
unfolding normalized
normalized-plain none url h = cc
normalized-plain (some s) url h = normalized_url-plain s url h

if_allowed-some :
    (allowed : List Text) (o : Option Text) (url : Text)
    → if_allowed allowed o ≡ some url
    → (o ≡ some url) × (contains_text url allowed ≡ true)
unfolding if_allowed
if_allowed-some allowed none url h = cc
if_allowed-some allowed (some u) url h = ground arith

-- Every target is an allowed URL.
abbrev pub AreAllowed : List Text → List Text → Type 0
AreAllowed allowed targets = all (λ u. contains_text u allowed) targets ≡ true

log-AreAllowed :
    (allowed : List Text) (shown url : Text)
    → any is_angle shown ≡ false
    → any is_angle url ≡ false
    → contains_text url allowed ≡ true
    → AreAllowed allowed (link_targets (with_log shown url))
log-AreAllowed allowed shown url h k c =
    rw (link_targets-with_log shown url h k) (ground (arith, c))

plain-AreAllowed :
    (allowed : List Text) (shown : Text)
    → any is_angle shown ≡ false
    → AreAllowed allowed (link_targets shown)
plain-AreAllowed allowed shown h = rw (link_targets-plain shown h) refl

followup-AreAllowed :
    (allowed : List Text) (answer : Text) (o : Option Text) (f : JenkinsDiagnosisExcerptFormat)
    → any is_angle answer ≡ false
    → ((url : Text)
        → o ≡ some url
        → (any is_angle url ≡ false) × (contains_text url allowed ≡ true))
    → AreAllowed allowed (link_targets (followup_with_log answer o none f))
unfolding followup_with_log append_jenkins_excerpt append_sanitized and_then_sanitized
followup-AreAllowed allowed answer none f h k = plain-AreAllowed allowed answer h
followup-AreAllowed allowed answer (some url) f h k =
    log-AreAllowed allowed answer url h (k url refl).0 (k url refl).1

requested-facts :
    (allowed : List Text) (o : Option Text) (url : Text)
    → requested_log_url allowed o ≡ some url
    → (any is_angle url ≡ false) × (contains_text url allowed ≡ true)
unfolding requested_log_url
requested-facts allowed o url h =
    let facts = if_allowed-some allowed (normalized o) url h in
    (normalized-plain o url facts.0, facts.1)

if-AreAllowed :
    (allowed : List Text) (x y : Text) (b : Bool)
    → AreAllowed allowed (link_targets x)
    → AreAllowed allowed (link_targets y)
    → AreAllowed allowed (link_targets (if b then x else y))
if-AreAllowed allowed x y true h k = h
if-AreAllowed allowed x y false h k = k

followup_reply-AreAllowed :
    (reply : JenkinsFollowupReply) (allowed : List Text)
    → AreAllowed allowed (link_targets (render_jenkins_followup_reply reply allowed none))
unfolding render_jenkins_followup_reply
followup_reply-AreAllowed reply allowed =
    let answer = escape_markdown_plain_text (concise_followup_answer reply.answer) in
    let plain = escape_plain (concise_followup_answer reply.answer) in
    if-AreAllowed allowed _ answer reply.include_evidence
      (followup-AreAllowed allowed answer (requested_log_url allowed reply.log_url)
        reply.excerpt_format plain (requested-facts allowed reply.log_url))
      (plain-AreAllowed allowed answer plain)

-- The allowed URLs are in normal form, as the prefetch gives them.
abbrev pub AreNormalized : List Text → Type 0
AreNormalized allowed = all (λ u. is_some_text u (normalized_jenkins_console_url u)) allowed ≡ true

single-fact :
    (u url : Text) (o : Option Text)
    → o ≡ some url
    → (is_some_text u o && true) ≡ true
    → contains_text url (u ∷ []) ≡ true
unfolding contains_text
single-fact u url none e h = cc
single-fact u url (some v) e h =
    ground
      (arith, text_eq_sound v u, text_eq_sound url u, ap (λ z. text_eq z u) (single-same v url e))
  where
    single-same : (v url : Text) → some v ≡ some url → v ≡ url
    single-same v url e = cc

fallback-facts :
    (allowed : List Text) (url : Text)
    → AreNormalized allowed
    → normalized (fallback_log_url allowed) ≡ some url
    → (any is_angle url ≡ false) × (contains_text url allowed ≡ true)
unfolding fallback_log_url normalized
fallback-facts [] url n h = cc
fallback-facts (u ∷ []) url n h = (normalized_url-plain u url h, single-fact u url _ h n)
fallback-facts (u ∷ v ∷ us) url n h = cc

prefix-plain : (v : JenkinsDiagnosisVerdict) → any is_angle (verdict_prefix v) ≡ false
unfolding verdict_prefix text
prefix-plain infra_false_alarm = refl
prefix-plain likely_product_test_failure = refl
prefix-plain not_enough_evidence = refl

diagnosis_text-plain :
    (v : JenkinsDiagnosisVerdict) (reason : Text) → any is_angle (diagnosis_text v reason) ≡ false
unfolding diagnosis_text text
diagnosis_text-plain v reason = ground (
  arith,
  any-append is_angle (verdict_prefix v)
      (text " " ++ escape_markdown_plain_text (concise_reason reason)),
  any-append is_angle (verdict_prefix not_enough_evidence)
      (text " " ++ text "diagnostic evidence is inconclusive"),
  prefix-plain v,
  prefix-plain not_enough_evidence,
  escape_plain (concise_reason reason),
)

diagnosis-AreAllowed :
    (allowed : List Text) (shown : Text) (o fallback : Option Text)
    (f : JenkinsDiagnosisExcerptFormat)
    → any is_angle shown ≡ false
    → ((url : Text)
        → o ≡ some url
        → (any is_angle url ≡ false) × (contains_text url allowed ≡ true))
    → ((url : Text)
        → fallback ≡ some url
        → (any is_angle url ≡ false) × (contains_text url allowed ≡ true))
    → AreAllowed allowed (link_targets (diagnosis_with_log shown o fallback none f))
unfolding diagnosis_with_log append_jenkins_excerpt append_sanitized and_then_sanitized
diagnosis-AreAllowed allowed shown (some url) fallback f h k l =
    log-AreAllowed allowed shown url h (k url refl).0 (k url refl).1
diagnosis-AreAllowed allowed shown none (some url) f h k l =
    log-AreAllowed allowed shown url h (l url refl).0 (l url refl).1
diagnosis-AreAllowed allowed shown none none f h k l = plain-AreAllowed allowed shown h

diagnosis_reply-AreAllowed :
    (reply : JenkinsDiagnosisReply) (allowed : List Text)
    → AreNormalized allowed
    → AreAllowed allowed (
        link_targets (render_jenkins_diagnosis_reply reply allowed (fallback_log_url allowed) none))
unfolding render_jenkins_diagnosis_reply
diagnosis_reply-AreAllowed reply allowed n =
    diagnosis-AreAllowed allowed (diagnosis_text reply.verdict reply.reason)
      (requested_log_url allowed reply.log_url) (normalized (fallback_log_url allowed))
      reply.excerpt_format (diagnosis_text-plain reply.verdict reply.reason)
      (requested-facts allowed reply.log_url) (λ url h. fallback-facts allowed url n h)

on_diagnosis-AreAllowed :
    (allowed : List Text) (o : Option JenkinsDiagnosisReply)
    → AreNormalized allowed
    → AreAllowed allowed (link_targets (on_diagnosis allowed none o))
unfolding on_diagnosis unparsed_diagnosis
on_diagnosis-AreAllowed allowed (some reply) n = diagnosis_reply-AreAllowed reply allowed n
on_diagnosis-AreAllowed allowed none n =
    diagnosis_reply-AreAllowed (unparsed_diagnosis (fallback_log_url allowed)) allowed n

on_followup-AreAllowed :
    (allowed : List Text) (o : Option JenkinsFollowupReply)
    → AreAllowed allowed (link_targets (on_followup allowed none o))
unfolding on_followup
on_followup-AreAllowed allowed (some reply) = followup_reply-AreAllowed reply allowed
on_followup-AreAllowed allowed none = followup_reply-AreAllowed unparsed_followup allowed

-- Whatever Codex answers, and however its JSON is read, in a Jenkins reply without an excerpt of a
-- log every text between angle brackets, which is where the target of a link stands, is one of the
-- console URLs that were prefetched for it. The prefetched URLs are in normal form.
pub rendered_links-AreAllowed :
    (readers : ReplyReaders) (output : Text) (allowed : List Text)
    → AreNormalized allowed
    → AreAllowed allowed (
        link_targets (
          render_reply_text_with_verified_excerpt readers jenkins_diagnosis_json output allowed
            none))
      × AreAllowed allowed (
          link_targets (
            render_reply_text_with_verified_excerpt readers jenkins_followup_json output allowed
              none))
unfolding render_reply_text_with_verified_excerpt
rendered_links-AreAllowed readers output allowed n = (
  on_diagnosis-AreAllowed allowed (parse_jenkins_diagnosis_json readers output) n,
  on_followup-AreAllowed allowed (parse_jenkins_followup_json readers output),
)
