-- ===== src/Policy/Trimming.antt =====
-- What `trim_to_chars` keeps (src/policy.rs).
use webex_generic_account_bo.Base.{
  ℕ, zero, suc, ◌+◌, ◌≤◌, max, ◌≡◌, refl, [], ◌∷◌, ◌++◌, length, take, leb, if◌then◌else◌, arith,
}
use webex_generic_account_bo.Text.{Text, text}
use webex_generic_account_bo.Policy.Defs.{trim_to_chars, take_chars}

take_chars_lem :
    (room : ℕ) (s : Text)
    → take_chars room s ≡ (if leb (length s) room then s else take room s ++ text "\n[truncated]")
unfolding take_chars
take_chars_lem zero [] = refl
take_chars_lem (suc room) [] = ground arith
take_chars_lem zero (c ∷ s) = ground arith
take_chars_lem (suc room) (c ∷ s) = ground (arith, take_chars_lem room s)

-- A text of at most `max_chars` characters (at least 1) is kept as it is; of a longer one exactly
-- that many characters are kept, and the truncation note follows them.
pub trim_to_chars_lem :
    (s : Text) (n : ℕ)
    → trim_to_chars s n
      ≡ (if leb (length s) (max n 1) then s else take (max n 1) s ++ text "\n[truncated]")
unfolding trim_to_chars
trim_to_chars_lem s n = take_chars_lem (max n 1) s

length-take_chars : (room : ℕ) (s : Text) → length (take_chars room s) ≤ room + 12
unfolding take_chars text
length-take_chars room [] = omega arith
length-take_chars zero (c ∷ s) = omega arith
length-take_chars (suc room) (c ∷ s) = omega (arith, length-take_chars room s)

-- The result has at most 12 characters more than the limit, the length of the note.
pub length-trim_to_chars : (s : Text) (n : ℕ) → length (trim_to_chars s n) ≤ max n 1 + 12
unfolding trim_to_chars
length-trim_to_chars s n = length-take_chars (max n 1) s
