-- ===== src/Thread/Templates.antt =====
-- Filling in a follow-up template (`render_followup_prompt` of src/main.rs).
use webex_generic_account_bo.Base.{
  ℕ, ◌≡◌, refl, ap, ◌∙◌, none, some, List, [], ◌∷◌, ◌++◌, length, All, arith, unwrap_or, ◌==◌,
  false,
}
use webex_generic_account_bo.Text.{Text, text, strip_prefix}
use webex_generic_account_bo.Policy.{MessageContext}
use webex_generic_account_bo.Thread.{
  find_placeholder, render_from, render_template_once, render_followup_prompt,
}

-- The placeholders that a follow-up template may have.
pub data Slot : Type 0 where
  room_id message_id person_id person_email body : Slot
  original_room_id original_message_id original_person_id original_person_email : Slot
  original_body thread_context : Slot

-- What stands in the template for a placeholder, but its opening brace.
abbrev pub spelling : Slot → Text
spelling room_id = text "room_id}"
spelling message_id = text "message_id}"
spelling person_id = text "person_id}"
spelling person_email = text "person_email}"
spelling body = text "body}"
spelling original_room_id = text "original_room_id}"
spelling original_message_id = text "original_message_id}"
spelling original_person_id = text "original_person_id}"
spelling original_person_email = text "original_person_email}"
spelling original_body = text "original_body}"
spelling thread_context = text "thread_context}"

-- What a placeholder stands for: about the current message, about the message at the root of the
-- thread, or the context.
abbrev pub meaning : MessageContext → MessageContext → Text → Slot → Text
meaning c source context room_id = c.room_id
meaning c source context message_id = c.message_id
meaning c source context person_id = unwrap_or [] c.person_id
meaning c source context person_email = unwrap_or [] c.person_email
meaning c source context body = c.body
meaning c source context original_room_id = source.room_id
meaning c source context original_message_id = source.message_id
meaning c source context original_person_id = unwrap_or [] source.person_id
meaning c source context original_person_email = unwrap_or [] source.person_email
meaning c source context original_body = source.body
meaning c source context thread_context = context

-- A template is made of characters other than the opening brace, and of placeholders.
pub data Piece : Type 0 where
  char : ℕ → Piece
  slot : Slot → Piece

abbrev pub IsPiece : Piece → Type 0
IsPiece (char c) = (c == b'{') ≡ false
IsPiece (slot s) = Unit

abbrev pub written : List Piece → Text
written [] = []
written (char c ∷ ps) = c ∷ written ps
written (slot s ∷ ps) = b'{' ∷ (spelling s ++ written ps)

abbrev pub filled : MessageContext → MessageContext → Text → List Piece → Text
filled c source context [] = []
filled c source context (char x ∷ ps) = x ∷ filled c source context ps
filled c source context (slot s ∷ ps) = meaning c source context s ++ filled c source context ps

render_from-skip :
    (rs : List (Text × Text)) (p rest : Text)
    → render_from rs (length p) (p ++ rest) ≡ render_from rs 0 rest
unfolding render_from
render_from-skip rs [] rest = refl
render_from-skip rs (c ∷ p) rest = render_from-skip rs p rest

render_from-found :
    (rs : List (Text × Text)) (c : ℕ) (p rest value : Text)
    → find_placeholder rs ((c ∷ p) ++ rest) ≡ some (length (c ∷ p), value)
    → render_from rs 0 ((c ∷ p) ++ rest) ≡ value ++ render_from rs 0 rest
unfolding render_from
render_from-found rs c p rest value h =
    let first : render_from rs 0 ((c ∷ p) ++ rest)
        ≡ value ++ render_from rs (length p) (p ++ rest) =
      ground (arith, h) in
    first ∙ ap (λ t. value ++ t) (render_from-skip rs p rest)

module _ (c source : MessageContext) (context : Text) where
  -- The replacements of `render_followup_prompt`.
  abbrev replacements : List (Text × Text)
  replacements =
      (text "{room_id}", c.room_id)
      ∷ (text "{message_id}", c.message_id)
      ∷ (text "{person_id}", unwrap_or [] c.person_id)
      ∷ (text "{person_email}", unwrap_or [] c.person_email)
      ∷ (text "{body}", c.body)
      ∷ (text "{original_room_id}", source.room_id)
      ∷ (text "{original_message_id}", source.message_id)
      ∷ (text "{original_person_id}", unwrap_or [] source.person_id)
      ∷ (text "{original_person_email}", unwrap_or [] source.person_email)
      ∷ (text "{original_body}", source.body)
      ∷ (text "{thread_context}", context)
      ∷ []

  found :
      (s : Slot) (rest : Text)
      → find_placeholder replacements ((b'{' ∷ spelling s) ++ rest)
        ≡ some (length (b'{' ∷ spelling s), meaning c source context s)
  unfolding find_placeholder strip_prefix text
  found room_id rest = refl
  found message_id rest = refl
  found person_id rest = refl
  found person_email rest = refl
  found body rest = refl
  found original_room_id rest = refl
  found original_message_id rest = refl
  found original_person_id rest = refl
  found original_person_email rest = refl
  found original_body rest = refl
  found thread_context rest = refl

  not_found :
      (x : ℕ) (rest : Text) → (x == b'{') ≡ false → find_placeholder replacements (x ∷ rest) ≡ none
  unfolding find_placeholder strip_prefix text
  not_found x rest h = ground arith

  unchanged :
      (x : ℕ) (rest : Text)
      → (x == b'{') ≡ false
      → render_from replacements 0 (x ∷ rest) ≡ x ∷ render_from replacements 0 rest
  unfolding render_from
  unchanged x rest h = ground (arith, not_found x rest h)

  render_pieces :
      (ps : List Piece)
      → All IsPiece ps
      → render_from replacements 0 (written ps) ≡ filled c source context ps
  unfolding render_from
  render_pieces [] h = refl
  render_pieces (char x ∷ ps) h =
      unchanged x (written ps) h.0 ∙ ap (λ t. x ∷ t) (render_pieces ps h.1)
  render_pieces (slot s ∷ ps) h =
      render_from-found replacements b'{' (spelling s) (written ps) (meaning c source context s)
        (found s (written ps))
      ∙ ap (λ t. meaning c source context s ++ t) (render_pieces ps h.1)

-- A template that is made of the eleven placeholders and of characters other than the opening brace
-- is filled in piece by piece: every placeholder gives way to what it stands for, as it is, even if
-- that contains placeholders itself, and every other character stays.
pub render_followup_prompt-written :
    (c source : MessageContext) (context : Text) (ps : List Piece)
    → All IsPiece ps
    → render_followup_prompt (written ps) c source context ≡ filled c source context ps
unfolding render_followup_prompt render_template_once
render_followup_prompt-written c source context ps h = render_pieces c source context ps h
