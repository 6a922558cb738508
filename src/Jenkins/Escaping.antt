-- ===== src/Jenkins/Escaping.antt =====
-- Escaped text is plain text (src/main.rs).
use webex_generic_account_bo.Base.{
  ℕ, ◌≡◌, refl, ap, ◌∙◌, Bool, true, false, ◌||◌, Option, none, some, [], ◌∷◌, ◌++◌, any,
  any-append, arith, if◌then◌else◌, ◌==◌, ◌&&◌, leb, Bool-cases, inl, inr,
}
use webex_generic_account_bo.Text.{Text, text, text_eq}
use webex_generic_account_bo.Jenkins.Words.{is_markup, escape_char, escape_markdown_plain_text}

-- A character of HTML markup.
abbrev pub is_angle : ℕ → Bool
is_angle c = c == b'<' || c == b'>'

pub escape_char_plain : (c : ℕ) → any is_angle (escape_char c) ≡ false
unfolding escape_char is_markup text
escape_char_plain c = ground arith

pub escape_plain : (s : Text) → any is_angle (escape_markdown_plain_text s) ≡ false
unfolding escape_markdown_plain_text
escape_plain [] = refl
escape_plain (c ∷ s) =
    any-append is_angle (escape_char c) (escape_markdown_plain_text s)
    ∙ ground (arith, escape_char_plain c, escape_plain s)

-- ASCII punctuation: what a backslash escapes in Markdown.
abbrev pub is_punctuation : ℕ → Bool
is_punctuation c =
    (leb 0x21 c && leb c 0x2f)
    || (leb 0x3a c && leb c 0x40)
    || (leb 0x5b c && leb c 0x60)
    || (leb 0x7b c && leb c 0x7e)

-- The delimiters of code spans, of emphasis, of links and of HTML tags.
abbrev pub is_delimiter : ℕ → Bool
is_delimiter c =
    any (λ d. c == d) (b'`' ∷ b'*' ∷ b'_' ∷ b'[' ∷ b']' ∷ b'(' ∷ b')' ∷ b'<' ∷ b'>' ∷ [])

-- Where a reader of inline Markdown stands: in plain text, after a backslash, or in an entity.
data Reading : Type 0 where
  plain : Reading
  escaped : Reading
  entity : Text → Reading

entity_char : Text → Option ℕ
entity_char e =
    if text_eq e (text "amp")
    then some b'&'
    else if text_eq e (text "lt")
    then some b'<'
    else if text_eq e (text "gt")
    then some b'>'
    else none

-- A character that has been read, before the rest.
abbrev before : Option ℕ → Option Text → Option Text
before (some c) (some s) = some (c ∷ s)
before _ _ = none

abbrev after_plain : ℕ → Reading
after_plain c = if c == b'\\' then escaped else if c == b'&' then entity [] else plain

abbrev is_read : ℕ → Bool
is_read c = c == b'\\' || c == b'&'

-- The plain text of inline Markdown: a backslash stands for the punctuation after it, the three
-- entities for their characters, and any other character for itself, but an unescaped delimiter is no
-- plain text. Headings, lists, strikethrough and bare URLs are not known to this reader.
read_plain : Reading → Text → Option Text
unfolding entity_char
read_plain plain [] = some []
read_plain escaped [] = none
read_plain (entity e) [] = none
read_plain plain (c ∷ s) = elim (is_read c) [
  | true ↦ read_plain (after_plain c) s
  | false ↦ elim (is_delimiter c) [ true ↦ none | false ↦ before (some c) (read_plain plain s) ]
]
read_plain escaped (c ∷ s) = elim (is_punctuation c) [
  | true ↦ before (some c) (read_plain plain s)
  | false ↦ none
]
read_plain (entity e) (c ∷ s) = elim (c == b';') [
  | true ↦ before (entity_char e) (read_plain plain s)
  | false ↦ read_plain (entity (e ++ c ∷ [])) s
]

pub shown_text : Text → Option Text
unfolding read_plain
shown_text s = read_plain plain s

markup_is_punctuation : (c : ℕ) → is_markup c ≡ true → is_punctuation c ≡ true
unfolding is_markup
markup_is_punctuation c h = ground arith

read-markup :
    (c : ℕ) (t : Text)
    → is_markup c ≡ true
    → read_plain plain (b'\\' ∷ c ∷ t) ≡ before (some c) (read_plain plain t)
unfolding read_plain
read-markup c t h = rw (read_plain, markup_is_punctuation c h) refl

read-amp :
    (t : Text) → read_plain plain (text "&amp;" ++ t) ≡ before (some b'&') (read_plain plain t)
unfolding read_plain text text_eq
read-amp t = refl

read-lt : (t : Text) → read_plain plain (text "&lt;" ++ t) ≡ before (some b'<') (read_plain plain t)
unfolding read_plain text text_eq
read-lt t = refl

read-gt : (t : Text) → read_plain plain (text "&gt;" ++ t) ≡ before (some b'>') (read_plain plain t)
unfolding read_plain text text_eq
read-gt t = refl

other_is_plain :
    (c : ℕ)
    → is_markup c ≡ false
    → (c == b'&') ≡ false
    → (c == b'<') ≡ false
    → (c == b'>') ≡ false
    → (is_read c ≡ false) × (is_delimiter c ≡ false)
unfolding is_markup
other_is_plain c h p q r = (ground arith, ground arith)

read-other :
    (c : ℕ) (t : Text)
    → is_read c ≡ false
    → is_delimiter c ≡ false
    → read_plain plain (c ∷ t) ≡ before (some c) (read_plain plain t)
unfolding read_plain
read-other c t h p = rw (read_plain, h, p) refl

same_char : (c d : ℕ) (s : Option Text) → (c == d) ≡ true → before (some d) s ≡ before (some c) s
same_char c d s h = let q : d ≡ c = ground arith in ap (λ x. before (some x) s) q

read-escape_char :
    (c : ℕ) (t : Text)
    → read_plain plain (escape_char c ++ t) ≡ before (some c) (read_plain plain t)
unfolding escape_char
read-escape_char c t = elim (Bool-cases (is_markup c)) [
  | inl h ↦ rw h (read-markup c t h)
  | inr h ↦ elim (Bool-cases (c == b'&')) [
    | inl p ↦ rw h (rw p (read-amp t ∙ same_char c b'&' (read_plain plain t) p))
    | inr p ↦ elim (Bool-cases (c == b'<')) [
      | inl q ↦ rw h (rw p (rw q (read-lt t ∙ same_char c b'<' (read_plain plain t) q)))
      | inr q ↦ elim (Bool-cases (c == b'>')) [
        | inl r ↦ rw h (rw p (rw q (rw r (read-gt t ∙ same_char c b'>' (read_plain plain t) r))))
        | inr r ↦
            let o = other_is_plain c h p q r in rw h (rw p (rw q (rw r (read-other c t o.0 o.1))))
      ]
    ]
  ]
]

-- Escaped text is read back as exactly the text that was escaped, whatever its characters are, by a
-- reader of inline Markdown that knows backslash escapes of ASCII punctuation and the entities of `&`,
-- `<` and `>`, and that takes no unescaped delimiter of code spans, emphasis, links or HTML tags for
-- plain text. That reader knows no headings, lists, strikethrough or bare URLs.
pub shown_text-escape_markdown_plain_text :
    (s : Text) → shown_text (escape_markdown_plain_text s) ≡ some s
unfolding shown_text escape_markdown_plain_text
shown_text-escape_markdown_plain_text [] = refl
shown_text-escape_markdown_plain_text (c ∷ s) =
    read-escape_char c (escape_markdown_plain_text s)
    ∙ ap (before (some c)) (shown_text-escape_markdown_plain_text s)
