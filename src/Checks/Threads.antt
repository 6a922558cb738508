-- ===== src/Checks/Threads.antt =====
-- Threads and templates, at concrete inputs.
use webex_generic_account_bo.Base.{ℤ, ◌≡◌, refl, none, some, List, [], ◌∷◌, pos}
use webex_generic_account_bo.Text.{Text, text}
use webex_generic_account_bo.Webex.{Message}
use webex_generic_account_bo.Thread.{render_followup_prompt}
use webex_generic_account_bo.Thread.Templates.{
  Piece, char, slot, body, thread_context, written, filled, render_followup_prompt-written,
}
use webex_generic_account_bo.Policy.{MessageContext}
use webex_generic_account_bo.Checks.Samples.{ann_asks}

abbrev thread : List Message
thread =
    record ann_asks { created = some (pos 9) }
    ∷ ann_asks
    ∷ record ann_asks { created = some (pos 3) }
    ∷ []

abbrev at_some_time : ℤ → Text
at_some_time t = text "now"

abbrev current : MessageContext
current = record {
  message_id = text "m";
  room_id = text "R";
  person_id = none;
  person_email = some (text "ann@example.com");
  body = text "{thread_context}";
}

-- `{body}: {thread_context}`, for a body that looks like a placeholder.
abbrev pieces : List Piece
pieces = slot body ∷ char b':' ∷ char b' ' ∷ slot thread_context ∷ []

render_followup_prompt-written_example :
    render_followup_prompt (written pieces) current current (text "c")
    ≡ filled current current (text "c") pieces
render_followup_prompt-written_example =
    render_followup_prompt-written current current (text "c") pieces (tt, (refl, (refl, (tt, tt))))
