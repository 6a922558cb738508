-- ===== src/Thread/Choice.antt =====
-- The loop that selects the replies of a thread context (`render_thread_context` of src/main.rs).
use mathlib.Core.List.{reverse, reverse-append}
use webex_generic_account_bo.Base.{
  ℕ, ◌+◌, ◌-◌, ◌^◌, ◌≤◌, ◌<◌, ◌≡◌, refl, sym, ap, subst, ◌∙◌, Bool, true, false, List, [], ◌∷◌,
  ◌++◌, length, length-append, ltb, saturating_add, ℤ, arith,
}
use webex_generic_account_bo.Text.{Text, text, join_with}
use webex_generic_account_bo.Thread.{select_replies}

-- The context of a root and replies: the entries with an empty line between them.
abbrev pub joined : Text → List Text → Text
joined root replies = join_with (text "\n\n") (root ∷ replies)

-- The newest reply that was left out, if there is one, does not fit: the replies that were left out
-- stand newest first.
abbrev pub IsFull : ℕ → Text → List Text → List Text → Type 0
IsFull limit root [] newest = Unit
IsFull limit root (reply ∷ skipped) newest = limit < length (joined root (reply ∷ newest))

-- The characters that replies add.
abbrev pub added : List Text → ℕ
added [] = 0
added (e ∷ es) = 2 + length e + added es

added-append : (es fs : List Text) → added (es ++ fs) ≡ added es + added fs
added-append [] fs = omega arith
added-append (e ∷ es) fs = omega (arith, added-append es fs)

pub length-joined :
    (root : Text) (es : List Text) → length (joined root es) ≡ length root + added es
unfolding join_with text
length-joined root [] = omega arith
length-joined root (e ∷ es) =
    omega (arith, length-append root (text "\n\n" ++ joined e es), length-joined e es)

-- The replies that were left out do not fit after so many characters.
abbrev pub IsFullAt : ℕ → ℕ → List Text → Type 0
IsFullAt limit used [] = Unit
IsFullAt limit used (reply ∷ skipped) = limit < used + 2 + length reply

-- What the loop over the entries, newest first, selects.
pub record Selects (limit used : ℕ) (es selected : List Text) : Type 0 where
  pub skipped : List Text
  pub split : es ≡ reverse selected ++ skipped
  pub fits : used + added selected ≤ limit
  pub full : IsFullAt limit (used + added selected) skipped

add-Selects :
    (limit used : ℕ) (e : Text) (es selected : List Text)
    → Selects limit (used + (2 + length e)) es selected
    → Selects limit used (e ∷ es) (selected ++ e ∷ [])
add-Selects limit used e es selected s =
    let same : used + (2 + length e) + added selected ≡ used + added (selected ++ e ∷ []) =
      omega (arith, added-append selected (e ∷ [])) in
    record {
      skipped = s.skipped;
      split =
          ap (λ r. e ∷ r) s.split
          ∙ ap (λ r. r ++ s.skipped) (sym (reverse-append selected (e ∷ [])));
      fits = omega (arith, s.fits, same);
      full = subst (λ n. IsFullAt limit n s.skipped) same s.full;
    }

overflows :
    (limit used : ℕ) (e : Text)
    → limit < 2 ^ 64 - 1
    → ltb limit (saturating_add (saturating_add used 2) (length e)) ≡ true
    → limit < used + 2 + length e
overflows limit used e l h = ground arith

choose-Selects :
    (stops : Bool) (limit used : ℕ) (e : Text) (es selected : List Text)
    → used ≤ limit
    → (stops ≡ true → limit < used + 2 + length e)
    → (stops ≡ false → Selects limit (used + (2 + length e)) es selected)
    → Selects limit used (e ∷ es) (elim stops [ true ↦ [] | false ↦ selected ++ e ∷ [] ])
choose-Selects true limit used e es selected u h k = record {
  skipped = e ∷ es;
  split = refl;
  fits = omega arith;
  full = omega (arith, h refl);
}
choose-Selects false limit used e es selected u h k = add-Selects limit used e es selected (k refl)

still_fits :
    (limit used : ℕ) (e : Text)
    → ltb limit (saturating_add (saturating_add used 2) (length e)) ≡ false
    → limit < 2 ^ 64 - 1
    → used + (2 + length e) ≤ limit
still_fits limit used e h l = ground arith

pub select-Selects :
    (format_time : ℤ → Text) (limit used : ℕ) (es : List Text)
    → limit < 2 ^ 64 - 1
    → used ≤ limit
    → Selects limit used es (select_replies format_time limit used true es)
unfolding select_replies
select-Selects format_time limit used [] l u = record {
  skipped = [];
  split = refl;
  fits = omega arith;
  full = tt;
}
select-Selects format_time limit used (e ∷ es) l u =
    choose-Selects (ltb limit (saturating_add (saturating_add used 2) (length e))) limit used e es
      (select_replies format_time limit (used + (2 + length e)) true es) u
      (overflows limit used e l)
      (λ h.
        select-Selects format_time limit (used + (2 + length e)) es l (still_fits limit used e h l))
