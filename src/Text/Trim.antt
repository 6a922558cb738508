-- ===== src/Text/Trim.antt =====
-- `char::is_whitespace` and `str::trim`.
use mathlib.Core.List.{reverse}
use webex_generic_account_bo.Base.{
  ℕ, Bool, true, false, ◌&&◌, ◌||◌, List, [], ◌∷◌, leb, ◌==◌, is_empty,
}

-- The Unicode property White_Space.
unfoldable pub is_whitespace : ℕ → Bool
is_whitespace c =
    (leb 9 c && leb c 13)
    || c == 32
    || c == 0x85
    || c == 0xa0
    || c == 0x1680
    || (leb 0x2000 c && leb c 0x200a)
    || c == 0x2028
    || c == 0x2029
    || c == 0x202f
    || c == 0x205f
    || c == 0x3000

unfoldable pub trim_start : List ℕ → List ℕ
trim_start [] = []
trim_start (c ∷ s) = elim (is_whitespace c) [ true ↦ trim_start s | false ↦ c ∷ s ]

unfoldable pub trim_end : List ℕ → List ℕ
unfolding trim_start
trim_end s = reverse (trim_start (reverse s))

unfoldable pub trim : List ℕ → List ℕ
trim s = trim_end (trim_start s)

-- `s.trim().is_empty()`.
unfoldable pub is_blank : List ℕ → Bool
is_blank s = is_empty (trim s)
