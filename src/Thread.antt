-- ===== src/Thread.antt =====
-- The thread context of a follow-up prompt, and the prompt itself (src/main.rs).
pub mod Order
pub mod Templates
pub mod Choice
pub mod Selection
use webex_generic_account_bo.Base.{
  ℕ, zero, suc, ◌+◌, ◌-◌, min, max, Bool, true, false, ◌||◌, not, Option, none, some, List, [], ◌∷◌,
  ◌++◌, keep, map, length, is_some_and, if◌then◌else◌, unwrap_or, or, ltb, ℤ, leb_ℤ, saturating_add,
}
use webex_generic_account_bo.Text.{
  Text, text, is_some_text, contains, strip_prefix, trim, is_blank, lines, join_with,
}
use mathlib.Core.List.{reverse}
use webex_generic_account_bo.Policy.{MessageContext, trim_to_chars}
use webex_generic_account_bo.Webex.{Message}

-- `left.created <= right.created`: no timestamp comes first.
unfoldable pub created_le : Option ℤ → Option ℤ → Bool
created_le none b = true
created_le (some a) none = false
created_le (some a) (some b) = leb_ℤ a b

-- The stable `sort_by_key(|message| message.created)` of std.
unfoldable pub insert_by_created : Message → List Message → List Message
insert_by_created m [] = m ∷ []
insert_by_created m (n ∷ ns) = elim (created_le m.created n.created) [
  | true ↦ m ∷ n ∷ ns
  | false ↦ n ∷ insert_by_created m ns
]

unfoldable pub sort_by_created : List Message → List Message
unfolding insert_by_created created_le
sort_by_created [] = []
sort_by_created (m ∷ ms) = insert_by_created m (sort_by_created ms)

-- Lines with a hidden marker are not shown to Codex.
unfoldable pub has_hidden_marker : Text → Bool
has_hidden_marker line =
    contains (text "<!-- wgb-ref:") line || contains (text "<!-- wgb-source-ref:") line

unfoldable pub clean_prompt_message_body : Message → Text
unfolding has_hidden_marker
clean_prompt_message_body m = trim (
    join_with (text "\n") (
      keep (λ l. not (has_hidden_marker l))
        (lines (unwrap_or [] (or m.markdown (or m.body_text m.html))))))

unfoldable pub thread_sender : Message → Option Text → Text
thread_sender m self_id =
    if is_some_and (λ s. is_some_text s m.person_id) self_id
    then text "bot"
    else unwrap_or (text "unknown") (or m.person_email m.person_id)

module _ (format_time : ℤ → Text) where
  unfoldable pub thread_time : Option ℤ → Text
  thread_time none = text "unknown-time"
  thread_time (some t) = format_time t

  unfoldable pub render_thread_message : Text → Message → Option Text → ℕ → Text
  render_thread_message role m self_id max_chars =
      text "["
      ++ (role
          ++ (text "] "
              ++ (thread_time m.created
                  ++ (text " "
                      ++ (thread_sender m self_id
                          ++ (text " ("
                              ++ (unwrap_or (text "unknown") m.id
                                  ++ (text ")\n"
                                      ++ trim_to_chars (clean_prompt_message_body m)
                                          (min (max max_chars 1) 1200)))))))))

  -- The replies but the current message, oldest first, rendered.
  unfoldable pub reply_entries : List Message → Text → Option Text → ℕ → List Text
  reply_entries thread current_id self_id max_chars =
      keep (λ e. not (is_blank e))
        (map (λ m. render_thread_message (text "reply") m self_id max_chars)
          (keep (λ m. not (is_some_text current_id m.id)) (sort_by_created thread)))

  -- The loop over the entries, newest first: as many as fit. `separated` says whether the next
  -- entry needs a separator. The result is oldest first.
  unfoldable pub select_replies : ℕ → ℕ → Bool → List Text → List Text
  select_replies max_chars used separated [] = []
  select_replies max_chars used separated (e ∷ es) =
      let separator : ℕ = if separated then 2 else 0 in
      elim (ltb max_chars (saturating_add (saturating_add used separator) (length e))) [
        | true ↦ []
        | false ↦ select_replies max_chars (used + (separator + length e)) true es ++ e ∷ []
      ]

  unfoldable pub render_thread_context : Message → List Message → Text → Option Text → ℕ → Text
  unfolding reply_entries select_replies
  render_thread_context root thread current_id self_id limit =
      let max_chars = max limit 1 in
      let root_entry =
        trim_to_chars (render_thread_message (text "root") root self_id limit) max_chars in
      let entries = reply_entries thread current_id self_id limit in
      let selected =
        select_replies max_chars (length root_entry) (not (is_blank root_entry))
          (reverse entries) in
      trim_to_chars (join_with (text "\n\n") (keep (λ e. not (is_blank e)) (root_entry ∷ selected)))
        max_chars

-- The first placeholder that a text begins with: its length and its value.
unfoldable pub find_placeholder : List (Text × Text) → Text → Option (ℕ × Text)
find_placeholder [] s = none
find_placeholder ((placeholder, value) ∷ rest) s = elim (strip_prefix placeholder s) [
  | some _ ↦ some (length placeholder, value)
  | none ↦ find_placeholder rest s
]

-- The loop of `render_template_once`; `skip` counts the characters of a placeholder that are still
-- to be passed.
unfoldable pub render_from : List (Text × Text) → ℕ → Text → Text
unfolding find_placeholder
render_from replacements skip [] = []
render_from replacements (suc skip) (c ∷ s) = render_from replacements skip s
render_from replacements zero (c ∷ s) = elim (find_placeholder replacements (c ∷ s)) [
  | some (size, value) ↦ value ++ render_from replacements (size - 1) s
  | none ↦ c ∷ render_from replacements zero s
]

unfoldable pub render_template_once : Text → List (Text × Text) → Text
unfolding render_from
render_template_once template replacements = render_from replacements 0 template

unfoldable pub render_followup_prompt : Text → MessageContext → MessageContext → Text → Text
render_followup_prompt template c source thread_context = render_template_once template (
    (text "{room_id}", c.room_id)
    ∷ (text "{message_id}", c.message_id)
    ∷ (text "{person_id}", unwrap_or [] c.person_id)
    ∷ (text "{person_email}", unwrap_or [] c.person_email)
    ∷ (text "{body}", c.body)
    ∷ (text "{original_room_id}", source.room_id)
    ∷ (text "{original_message_id}", source.message_id)
    ∷ (text "{original_person_id}", unwrap_or [] source.person_id)
    ∷ (text "{original_person_email}", unwrap_or [] source.person_email)
    ∷ (text "{original_body}", source.body)
    ∷ (text "{thread_context}", thread_context)
    ∷ [])
