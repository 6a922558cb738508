-- ===== src/Jenkins/Brackets.antt =====
-- The texts between angle brackets of a reply (src/main.rs).
use webex_generic_account_bo.Base.{
  ◌≡◌, refl, ap, ◌∙◌, sym, true, false, List, [], ◌∷◌, ◌++◌, any, arith, ◌==◌, append_assoc,
  append-nil,
}
use webex_generic_account_bo.Text.{Text, text}
use webex_generic_account_bo.Jenkins.Render.{with_log}
use webex_generic_account_bo.Jenkins.Escaping.{is_angle}

-- Outside of an angle bracket, or inside, after these characters.
data Place : Type 0 where
  outside : Place
  inside : Text → Place

-- The texts between angle brackets, which is where a reply has the targets of its links.
bracketed : Place → Text → List Text
bracketed p [] = []
bracketed outside (c ∷ s) = elim (c == b'<') [
  | true ↦ bracketed (inside []) s
  | false ↦ bracketed outside s
]
bracketed (inside u) (c ∷ s) = elim (c == b'>') [
  | true ↦ u ∷ bracketed outside s
  | false ↦ bracketed (inside (u ++ c ∷ [])) s
]

pub link_targets : Text → List Text
unfolding bracketed
link_targets s = bracketed outside s

bracketed-plain :
    (a b : Text) → any is_angle a ≡ false → bracketed outside (a ++ b) ≡ bracketed outside b
unfolding bracketed
bracketed-plain [] b h = refl
bracketed-plain (c ∷ a) b h = ground (arith, bracketed-plain a b)

bracketed-inside :
    (u v b : Text)
    → any is_angle v ≡ false
    → bracketed (inside u) (v ++ b'>' ∷ b) ≡ (u ++ v) ∷ bracketed outside b
unfolding bracketed
bracketed-inside u [] b h = ap (λ w. w ∷ bracketed outside b) (sym (append-nil u))
bracketed-inside u (c ∷ v) b h =
    ground (arith, bracketed-inside (u ++ c ∷ []) v b, append_assoc u (c ∷ []) v)

pub link_targets-plain : (a : Text) → any is_angle a ≡ false → link_targets a ≡ []
unfolding link_targets bracketed
link_targets-plain a h = ap (bracketed outside) (sym (append-nil a)) ∙ bracketed-plain a [] h

-- A text without brackets, with a link, has that one target.
pub link_targets-with_log :
    (shown url : Text)
    → any is_angle shown ≡ false
    → any is_angle url ≡ false
    → link_targets (with_log shown url) ≡ url ∷ []
unfolding link_targets with_log text bracketed
link_targets-with_log shown url h k =
    bracketed-plain shown _ h ∙ bracketed-inside [] url (b')' ∷ []) k
