-- ===== src/Text/Utf8.antt =====
-- The UTF-8 bytes of a text, and `String::from_utf8`.
use webex_generic_account_bo.Base.{
  ℕ, zero, suc, ◌+◌, ◌-◌, ◌*◌, ◌/◌, ◌%◌, ◌≤◌, ◌<◌, ◌≡◌, refl, ap, ◌∙◌, ◌⊎◌, ◌&&◌, Option, none,
  some, List, [], ◌∷◌, ◌++◌, length, length-append, take, ltb, leb, ◌==◌, if◌then◌else◌, arith, All,
}
use webex_generic_account_bo.Text.Defs.{Text}

-- A Unicode scalar value: what a `char` may hold.
abbrev pub IsScalar : ℕ → Type 0
IsScalar c = (c < 0xd800) ⊎ ((0xe000 ≤ c) × (c < 0x110000))

unfoldable pub encode_char : ℕ → List ℕ
encode_char c =
    if ltb c 0x80
    then c ∷ []
    else if ltb c 0x800
    then (0xc0 + c / 64) ∷ (0x80 + c % 64) ∷ []
    else if ltb c 0x10000
    then (0xe0 + c / 4096) ∷ (0x80 + c / 64 % 64) ∷ (0x80 + c % 64) ∷ []
    else (0xf0 + c / 262144) ∷ (0x80 + c / 4096 % 64) ∷ (0x80 + c / 64 % 64) ∷ (0x80 + c % 64) ∷ []

-- `str::as_bytes`.
unfoldable pub as_bytes : Text → List ℕ
as_bytes [] = []
as_bytes (c ∷ s) = encode_char c ++ as_bytes s

-- `str::len`.
unfoldable pub byte_len : Text → ℕ
byte_len s = length (as_bytes s)

pub byte_len-append : (s t : Text) → byte_len (s ++ t) ≡ byte_len s + byte_len t
unfolding byte_len as_bytes
byte_len-append [] t = omega arith
byte_len-append (c ∷ s) t = omega (
  arith,
  byte_len-append s t,
  length-append (encode_char c) (as_bytes (s ++ t)),
  length-append (encode_char c) (as_bytes s),
)

pub byte_len-cons : (c : ℕ) (s : Text) → byte_len (c ∷ s) ≡ length (encode_char c) + byte_len s
unfolding byte_len as_bytes
byte_len-cons c s = length-append (encode_char c) (as_bytes s)

pub byte_len-nil : byte_len [] ≡ 0
unfolding byte_len as_bytes
byte_len-nil = refl

-- An ASCII text has a byte for each character; so has what is taken of it.
pub byte_len-ascii : (n : ℕ) (s : Text) → All (λ c. c < 0x80) s → byte_len (take n s) ≤ n
unfolding byte_len as_bytes encode_char
byte_len-ascii zero s h = omega arith
byte_len-ascii (suc n) [] h = omega arith
byte_len-ascii (suc n) (c ∷ s) h = ground (arith, byte_len-ascii n s h.1)

-- Continuation bytes that are still needed, the value so far, and the range of the next byte.
pub record Pending : Type 0 where
  pub need : ℕ
  pub value : ℕ
  pub low : ℕ
  pub high : ℕ

abbrev pub start : Pending
start = record { need = 0; value = 0; low = 0x80; high = 0xbf }

-- The first byte of a character: a finished character, or what must follow.
unfoldable pub first_byte : ℕ → Option (Pending × Text)
first_byte b =
    if ltb b 0x80
    then some (start, b ∷ [])
    else if ltb b 0xc2
    then none
    else if ltb b 0xe0
    then some (record { need = 1; value = b - 0xc0; low = 0x80; high = 0xbf }, [])
    else if ltb b 0xf0
    then some (
      record {
        need = 2;
        value = b - 0xe0;
        low = if b == 0xe0 then 0xa0 else 0x80;
        high = if b == 0xed then 0x9f else 0xbf;
      },
      [],
    )
    else if ltb b 0xf5
    then some (
      record {
        need = 3;
        value = b - 0xf0;
        low = if b == 0xf0 then 0x90 else 0x80;
        high = if b == 0xf4 then 0x8f else 0xbf;
      },
      [],
    )
    else none

-- A continuation byte, with `more` needed after it.
unfoldable pub next_byte : ℕ → Pending → ℕ → Option (Pending × Text)
next_byte more p b =
    let value = p.value * 64 + (b - 0x80) in
    if leb p.low b && leb b p.high
    then if more == 0
      then some (start, value ∷ [])
      else some (record { need = more; value = value; low = 0x80; high = 0xbf }, [])
    else none

abbrev step_at : ℕ → Pending → ℕ → Option (Pending × Text)
step_at zero p b = first_byte b
step_at (suc more) p b = next_byte more p b

-- What a decoded rest becomes with the characters before it.
abbrev prepend : Text → Option Text → Option Text
prepend s none = none
prepend s (some t) = some (s ++ t)

unfoldable pub decode_from : Pending → List ℕ → Option Text
decode_from p [] = if p.need == 0 then some [] else none
decode_from p (b ∷ bs) = elim (step_at p.need p b) [
  | none ↦ none
  | some (q, out) ↦ prepend out (decode_from q bs)
]

unfoldable pub from_utf8 : List ℕ → Option Text
unfolding decode_from
from_utf8 bs = decode_from start bs

module _ (c : ℕ) (bs : List ℕ) where
  -- The four lengths of an encoding, each decoded byte by byte.
  decode_1 : c < 0x80 → decode_from start (c ∷ bs) ≡ prepend (c ∷ []) (decode_from start bs)
  unfolding decode_from first_byte
  decode_1 h = ground arith

  decode_2 :
      0x80 ≤ c
      → c < 0x800
      → decode_from start ((0xc0 + c / 64) ∷ (0x80 + c % 64) ∷ bs)
        ≡ prepend (c ∷ []) (decode_from start bs)
  unfolding decode_from first_byte next_byte
  decode_2 h k = ground arith

  decode_3 :
      0x800 ≤ c
      → (c < 0xd800) ⊎ ((0xe000 ≤ c) × (c < 0x10000))
      → decode_from start ((0xe0 + c / 4096) ∷ (0x80 + c / 64 % 64) ∷ (0x80 + c % 64) ∷ bs)
        ≡ prepend (c ∷ []) (decode_from start bs)
  unfolding decode_from first_byte next_byte
  decode_3 h k = ground arith

  decode_4 :
      0x10000 ≤ c
      → c < 0x110000
      → decode_from start (
          (0xf0 + c / 262144)
          ∷ (0x80 + c / 4096 % 64)
          ∷ (0x80 + c / 64 % 64)
          ∷ (0x80 + c % 64)
          ∷ bs)
        ≡ prepend (c ∷ []) (decode_from start bs)
  unfolding decode_from first_byte next_byte
  decode_4 h k = ground arith

decode-encode_char :
    (c : ℕ) (bs : List ℕ)
    → IsScalar c
    → decode_from start (encode_char c ++ bs) ≡ prepend (c ∷ []) (decode_from start bs)
unfolding encode_char
decode-encode_char c bs h =
    ground (arith, decode_1 c bs, decode_2 c bs, decode_3 c bs, decode_4 c bs)

pub from_utf8-as_bytes : (s : Text) → All IsScalar s → from_utf8 (as_bytes s) ≡ some s
unfolding from_utf8 as_bytes
from_utf8-as_bytes [] h = refl
from_utf8-as_bytes (c ∷ s) h =
    decode-encode_char c (as_bytes s) h.0 ∙ ap (prepend (c ∷ [])) (from_utf8-as_bytes s h.1)
