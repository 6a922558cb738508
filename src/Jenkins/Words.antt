-- ===== src/Jenkins/Words.antt =====
-- The text of a Jenkins reply: its JSON object, sentences, escapes and excerpts (src/main.rs).
use mathlib.Core.List.{reverse}
use webex_generic_account_bo.Base.{
  ℕ, ◌/◌, Bool, true, false, not, ◌&&◌, ◌||◌, Option, none, some, List, [], ◌∷◌, ◌++◌, map, keep,
  any, is_empty, ◌==◌, if◌then◌else◌,
}
use webex_generic_account_bo.Text.{Text, text, trim, is_whitespace, is_blank, join_with, lines}
use webex_generic_account_bo.Policy.{trim_to_chars}
use webex_generic_account_bo.Scheduler.{is_control}

pub data JenkinsDiagnosisExcerptFormat : Type 0 where
  inline_code : JenkinsDiagnosisExcerptFormat
  block_quote : JenkinsDiagnosisExcerptFormat

abbrev pub jenkins_diagnosis_excerpt_limit : ℕ
jenkins_diagnosis_excerpt_limit = 240

-- The rest of a text from its first opening brace on.
unfoldable pub from_brace : Text → Option Text
from_brace [] = none
from_brace (c ∷ s) = elim (c == b'{') [ true ↦ some (c ∷ s) | false ↦ from_brace s ]

-- A text up to its last closing brace.
unfoldable pub to_brace : Text → Option Text
to_brace [] = none
to_brace (c ∷ s) = elim (to_brace s) [
  | some r ↦ some (c ∷ r)
  | none ↦ elim (c == b'}') [ true ↦ some (c ∷ []) | false ↦ none ]
]

unfoldable pub ends_with_brace : Text → Bool
ends_with_brace [] = false
ends_with_brace (c ∷ []) = c == b'}'
ends_with_brace (c ∷ d ∷ s) = ends_with_brace (d ∷ s)

unfoldable pub starts_with_brace : Text → Bool
starts_with_brace [] = false
starts_with_brace (c ∷ s) = c == b'{'

unfoldable pub between_braces : Option Text → Option Text
unfolding to_brace
between_braces none = none
between_braces (some s) = elim (to_brace s) [ none ↦ none | some r ↦ some (trim r) ]

unfoldable pub extract_json_object : Text → Option Text
unfolding starts_with_brace ends_with_brace between_braces from_brace
extract_json_object output =
    if starts_with_brace (trim output) && ends_with_brace (trim output)
    then some (trim output)
    else between_braces (from_brace output)

-- A word that has been read, reversed, goes before the others, unless it is empty.
unfoldable pub finish_word : Text → List Text → List Text
finish_word [] ws = ws
finish_word (c ∷ word) ws = reverse (c ∷ word) ∷ ws

-- `split_whitespace`; `word` is the word being read, reversed.
unfoldable pub words_from : Text → Text → List Text
unfolding finish_word
words_from word [] = finish_word word []
words_from word (c ∷ s) = elim (is_whitespace c) [
  | true ↦ finish_word word (words_from [] s)
  | false ↦ words_from (c ∷ word) s
]

unfoldable pub split_whitespace : Text → List Text
unfolding words_from
split_whitespace s = words_from [] s

unfoldable pub is_stop : ℕ → Bool
is_stop c = c == b'.' || c == b'!' || c == b'?'

unfoldable pub is_edge : ℕ → Bool
unfolding is_stop
is_edge c = is_stop c || c == b' ' || c == b'\t'

unfoldable pub drop_edges : Text → Text
unfolding is_edge
drop_edges [] = []
drop_edges (c ∷ s) = elim (is_edge c) [ true ↦ drop_edges s | false ↦ c ∷ s ]

-- `trim_matches(['.', '!', '?', ' ', '\t'])`.
unfoldable pub trim_edges : Text → Text
unfolding drop_edges
trim_edges s = reverse (drop_edges (reverse (drop_edges s)))

unfoldable pub normalised : Text → Text
unfolding split_whitespace trim_edges join_with
normalised s = trim (trim_edges (join_with (text " ") (split_whitespace s)))

unfoldable pub concise_followup_answer : Text → Text
unfolding normalised
concise_followup_answer answer =
    if is_empty (normalised answer)
    then text "I do not have enough evidence to answer that follow-up"
    else trim_to_chars (normalised answer) (6000 / 2)

unfoldable pub at_end_of_word : Text → Bool
at_end_of_word [] = true
at_end_of_word (c ∷ s) = is_whitespace c

-- The first sentence, without its stop.
unfoldable pub first_sentence : Text → Text
unfolding is_stop at_end_of_word
first_sentence [] = []
first_sentence (c ∷ s) = elim (is_stop c && at_end_of_word s) [
  | true ↦ []
  | false ↦ c ∷ first_sentence s
]

unfoldable pub concise_reason : Text → Text
unfolding normalised first_sentence trim_edges
concise_reason reason =
    if is_empty (normalised reason)
    then text "diagnostic evidence is inconclusive"
    else trim_edges (first_sentence (normalised reason))

-- The characters that get a backslash.
unfoldable pub is_markup : ℕ → Bool
is_markup c =
    c == b'\\'
    || c == b'`'
    || c == b'*'
    || c == b'_'
    || c == b'['
    || c == b']'
    || c == b'('
    || c == b')'

unfoldable pub escape_char : ℕ → Text
unfolding is_markup
escape_char c =
    if is_markup c
    then b'\\' ∷ c ∷ []
    else if c == b'&'
    then text "&amp;"
    else if c == b'<'
    then text "&lt;"
    else if c == b'>'
    then text "&gt;"
    else c ∷ []

unfoldable pub escape_markdown_plain_text : Text → Text
unfolding escape_char
escape_markdown_plain_text [] = []
escape_markdown_plain_text (c ∷ s) = escape_char c ++ escape_markdown_plain_text s

unfoldable pub sanitize_jenkins_excerpt : Text → Option Text
unfolding is_control
sanitize_jenkins_excerpt value =
    let sanitized =
      trim (keep (λ c. not (is_control c && not (c == b'\n' || c == b'\t'))) (trim value)) in
    if is_empty sanitized
    then none
    else some (trim_to_chars sanitized jenkins_diagnosis_excerpt_limit)

unfoldable pub effective_excerpt_format :
    Text → JenkinsDiagnosisExcerptFormat → JenkinsDiagnosisExcerptFormat
effective_excerpt_format excerpt inline_code =
    if any (λ c. c == b'`' || c == b'\n') excerpt then block_quote else inline_code
effective_excerpt_format excerpt block_quote = block_quote

unfoldable pub blockquote_line : Text → Text
unfolding escape_markdown_plain_text
blockquote_line line =
    if is_blank line then text ">" else text "> " ++ escape_markdown_plain_text line

unfoldable pub blockquote_excerpt : Text → Text
unfolding blockquote_line join_with lines
blockquote_excerpt excerpt = join_with (text "\n") (map blockquote_line (lines excerpt))

unfoldable pub show_excerpt : Text → JenkinsDiagnosisExcerptFormat → Text
unfolding blockquote_excerpt
show_excerpt excerpt inline_code = text "\n`" ++ (excerpt ++ text "`")
show_excerpt excerpt block_quote = text "\n" ++ blockquote_excerpt excerpt

unfoldable pub append_sanitized : Text → Option Text → JenkinsDiagnosisExcerptFormat → Text
unfolding show_excerpt effective_excerpt_format
append_sanitized reply none format = reply
append_sanitized reply (some excerpt) format =
    reply ++ show_excerpt excerpt (effective_excerpt_format excerpt format)

unfoldable pub and_then_sanitized : Option Text → Option Text
unfolding sanitize_jenkins_excerpt
and_then_sanitized none = none
and_then_sanitized (some excerpt) = sanitize_jenkins_excerpt excerpt

unfoldable pub append_jenkins_excerpt : Text → Option Text → JenkinsDiagnosisExcerptFormat → Text
unfolding append_sanitized and_then_sanitized
append_jenkins_excerpt reply excerpt format =
    append_sanitized reply (and_then_sanitized excerpt) format
