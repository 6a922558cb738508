-- ===== src/Reply/Mentions.antt =====
-- Mentions in what the bot posts (src/main.rs).
use webex_generic_account_bo.Base.{
  ℕ, zero, suc, ◌≤◌, ◌≡◌, refl, Bool, false, ◌&&◌, ◌||◌, List, [], ◌∷◌, ◌++◌, max, ◌==◌, arith, inl,
  inr, ◌⊎◌, ◌≢◌, ◌%◌, ◌∙◌,
}
use webex_generic_account_bo.Text.{Text, text, strip_prefix, contains, replace, as_bytes}
use webex_generic_account_bo.Text.Replace.{replace_from}
use webex_generic_account_bo.Policy.{trim_to_chars, take_chars}
use webex_generic_account_bo.Markers.{
  hidden_marker_comment, reply_marker, marker_hex, bytes_to_hex, hex_digit,
}
use webex_generic_account_bo.Reply.Defs.{
  sanitize_reply_markdown, prepare_reply_markdown, visible_limit,
}

-- Whether a text that follows the character `before` completes or holds the pair `<@`.
has_mention : ℕ → Text → Bool
has_mention before [] = false
has_mention before (c ∷ s) = (before == b'<' && c == b'@') || has_mention c s

contains-has_mention : (s : Text) → contains (text "<@") s ≡ has_mention 0 s
unfolding contains text strip_prefix has_mention
contains-has_mention [] = refl
contains-has_mention (c ∷ []) = ground arith
contains-has_mention (c ∷ d ∷ s) = ground (arith, contains-has_mention (d ∷ s))

-- Whether a text begins with `@`.
abbrev begins_at : Text → Bool
begins_at [] = false
begins_at (c ∷ s) = c == b'@'

has_mention-replace_from :
    (b skip : ℕ) (s : Text)
    → (b == b'<' && begins_at s) ≡ false
    → skip ≤ 1
    → (skip ≡ 0) ⊎ (b ≡ b'@')
    → has_mention b (replace_from (text "<@") (text "&lt;@") skip s) ≡ false
unfolding has_mention replace_from text strip_prefix
has_mention-replace_from b zero [] h l k = refl
has_mention-replace_from b (suc skip) [] h l k = refl
has_mention-replace_from b (suc skip) (c ∷ s) h l k =
    let z : skip ≡ 0 = omega arith in
    rw z (has_mention-replace_from b 0 s (ground arith) (omega arith) (inl refl))
has_mention-replace_from b zero (c ∷ []) h l k = ground arith
has_mention-replace_from b zero (c ∷ d ∷ s) h l k = ground (
  arith,
  has_mention-replace_from b'@' 1 (d ∷ s) refl (omega arith) (inr refl),
  has_mention-replace_from c 0 (d ∷ s),
)

has_mention-take_chars :
    (b n : ℕ) (s : Text) → has_mention b s ≡ false → has_mention b (take_chars n s) ≡ false
unfolding has_mention take_chars text
has_mention-take_chars b zero [] h = refl
has_mention-take_chars b (suc n) [] h = refl
has_mention-take_chars b zero (c ∷ s) h = ground arith
has_mention-take_chars b (suc n) (c ∷ s) h = ground (arith, has_mention-take_chars c n s)

has_mention-append :
    (b : ℕ) (s t : Text) → has_mention b s ≡ false → has_mention b (s ++ 10 ∷ t) ≡ has_mention 10 t
unfolding has_mention
has_mention-append b [] t h = ground arith
has_mention-append b (c ∷ s) t h = ground (arith, has_mention-append c s t)

has_mention-hex :
    (b : ℕ) (bs : List ℕ) (t : Text)
    → b ≢ b'<'
    → ((c : ℕ) → c ≢ b'<' → has_mention c t ≡ false)
    → has_mention b (bytes_to_hex bs ++ t) ≡ false
unfolding has_mention bytes_to_hex hex_digit
has_mention-hex b [] t h k = k b h
has_mention-hex b (d ∷ bs) t h k =
    ground (arith, has_mention-hex (hex_digit (d % 16)) bs t (ground arith) k)

sanitize-no-mention : (s : Text) → has_mention 0 (sanitize_reply_markdown s) ≡ false
unfolding sanitize_reply_markdown replace
sanitize-no-mention s = has_mention-replace_from 0 0 s refl (omega arith) (inl refl)

footer-no-mention :
    (id : Text) → has_mention 10 (10 ∷ hidden_marker_comment (reply_marker id)) ≡ false
unfolding has_mention hidden_marker_comment reply_marker marker_hex text
footer-no-mention id =
    has_mention-hex b':' (as_bytes id) (text " -->") (omega arith) (λ c h. ground arith)

-- No prepared reply contains `<@`, the start of a Webex mention, whatever the text and the message
-- ID are.
pub prepare_reply_markdown_mentions_nobody :
    (markdown id : Text)
    → contains (text "<@") (prepare_reply_markdown markdown (reply_marker id)) ≡ false
unfolding prepare_reply_markdown trim_to_chars text
prepare_reply_markdown_mentions_nobody markdown id =
    let footer = hidden_marker_comment (reply_marker id) in
    let shown = trim_to_chars (sanitize_reply_markdown markdown) (visible_limit footer) in
    contains-has_mention (shown ++ 10 ∷ 10 ∷ footer)
    ∙ has_mention-append 0 shown (10 ∷ footer) (
        has_mention-take_chars 0 (max (visible_limit footer) 1) (sanitize_reply_markdown markdown)
          (sanitize-no-mention markdown))
    ∙ footer-no-mention id
