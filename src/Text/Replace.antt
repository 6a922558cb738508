-- ===== src/Text/Replace.antt =====
-- `str::replace`, `str::lines` and `join`.
use webex_generic_account_bo.Base.{
  ℕ, zero, suc, ◌-◌, true, false, none, some, List, [], ◌∷◌, ◌++◌, length, ◌==◌,
}
use mathlib.Core.List.{reverse}
use webex_generic_account_bo.Text.Defs.{Text, strip_prefix}

-- The scan of `str::replace`: `skip` counts the characters of a match that are still to be passed.
unfoldable pub replace_from : Text → Text → ℕ → Text → Text
replace_from from to skip [] = []
replace_from from to (suc skip) (c ∷ s) = replace_from from to skip s
replace_from from to zero (c ∷ s) = elim (strip_prefix from (c ∷ s)) [
  | some _ ↦ to ++ replace_from from to (length from - 1) s
  | none ↦ c ∷ replace_from from to zero s
]

-- `str::replace`, for a pattern that is not empty.
unfoldable pub replace : Text → Text → Text → Text
unfolding replace_from
replace from to s = replace_from from to 0 s

-- `join("\n")`.
unfoldable pub join_with : Text → List Text → Text
join_with sep [] = []
join_with sep (s ∷ []) = s
join_with sep (s ∷ t ∷ ss) = s ++ (sep ++ join_with sep (t ∷ ss))

-- A line with its final `\r` taken off; the line is reversed.
unfoldable pub finish_line : Text → Text
finish_line [] = []
finish_line (c ∷ s) = elim (c == 13) [ true ↦ reverse s | false ↦ reverse (c ∷ s) ]

-- `str::lines`; `line` is the line being read, reversed.
unfoldable pub lines_from : Text → Text → List Text
unfolding finish_line
lines_from [] [] = []
lines_from (l ∷ line) [] = reverse (l ∷ line) ∷ []
lines_from line (c ∷ s) = elim (c == 10) [
  | true ↦ finish_line line ∷ lines_from [] s
  | false ↦ lines_from (c ∷ line) s
]

unfoldable pub lines : Text → List Text
unfolding lines_from
lines s = lines_from [] s
