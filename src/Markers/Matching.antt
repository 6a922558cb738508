-- ===== src/Markers/Matching.antt =====
-- Which replies a marker finds (`reply_matches_marker` of src/main.rs).
use webex_generic_account_bo.Base.{
  ℕ, ◌≡◌, refl, ◌∙◌, true, some, List, [], ◌∷◌, ◌++◌, append_assoc, arith, Option-cases,
}
use webex_generic_account_bo.Text.{
  Text, text, as_bytes, strip_prefix, strip_prefix_append, contains, text_eq_refl,
}
use webex_generic_account_bo.Webex.{Message}
use webex_generic_account_bo.Markers.Defs.{
  bytes_to_hex, marker_hex, reply_marker, hidden_marker_comment, reply_body, reply_matches_marker,
}

contains-prefix : (p s : Text) → contains p (p ++ s) ≡ true
unfolding contains strip_prefix
contains-prefix [] [] = refl
contains-prefix [] (c ∷ s) = refl
contains-prefix (d ∷ p) s = ground (arith, strip_prefix_append (d ∷ p) s)

pub contains-append : (u p s : Text) → contains p (u ++ (p ++ s)) ≡ true
unfolding contains
contains-append [] p s = contains-prefix p s
contains-append (c ∷ u) p s =
    ground (arith, contains-append u p s, Option-cases (strip_prefix p (c ∷ u ++ (p ++ s))))

bytes_to_hex-append :
    (xs ys : List ℕ) → bytes_to_hex (xs ++ ys) ≡ bytes_to_hex xs ++ bytes_to_hex ys
unfolding bytes_to_hex
bytes_to_hex-append [] ys = refl
bytes_to_hex-append (x ∷ xs) ys = ground (arith, bytes_to_hex-append xs ys)

as_bytes-append : (s t : Text) → as_bytes (s ++ t) ≡ as_bytes s ++ as_bytes t
unfolding as_bytes
as_bytes-append [] t = refl
as_bytes-append (c ∷ s) t = simp (as_bytes-append s t, append_assoc)

-- The marker of a message ID is a prefix of the marker of every longer ID that begins with it.
reply_marker-append :
    (id more : Text) → reply_marker (id ++ more) ≡ reply_marker id ++ marker_hex more
unfolding reply_marker marker_hex
reply_marker-append id more = simp (as_bytes-append id more, bytes_to_hex-append, append_assoc)

comment_split :
    (visible id more : Text)
    → visible ++ (text "\n\n" ++ hidden_marker_comment (reply_marker (id ++ more)))
      ≡ (visible ++ (text "\n\n" ++ text "<!-- "))
        ++ (reply_marker id ++ (marker_hex more ++ text " -->"))
unfolding hidden_marker_comment
comment_split visible id more = simp (reply_marker-append id more, append_assoc)

-- A reply of the bot that carries the marker of a message ID matches the marker of every message
-- ID that this one begins with.
pub reply_matches_marker-prefix :
    (reply : Message) (self_id visible id more : Text)
    → reply.person_id ≡ some self_id
    → reply_body reply
      ≡ visible ++ (text "\n\n" ++ hidden_marker_comment (reply_marker (id ++ more)))
    → reply_matches_marker reply (reply_marker id) (some self_id) ≡ true
unfolding reply_matches_marker
reply_matches_marker-prefix reply self_id visible id more p b =
    rw (b ∙ comment_split visible id more, p, text_eq_refl self_id)
      (contains-append (visible ++ (text "\n\n" ++ text "<!-- ")) (reply_marker id)
        (marker_hex more ++ text " -->"))
