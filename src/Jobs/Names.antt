-- ===== src/Jobs/Names.antt =====
-- Which names are those of job files (src/message_jobs.rs).
use webex_generic_account_bo.Base.{
  ℕ, ◌/◌, ◌%◌, ◌*◌, ◌<◌, ◌≡◌, refl, ap, true, false, none, some, List, [], ◌∷◌, ◌++◌, length,
  length-append, all, All, arith,
}
use webex_generic_account_bo.Text.{
  Text, text, text_eq, text_eq_sound, text_eq_refl, byte_len, as_bytes, encode_char,
}
use webex_generic_account_bo.Markers.{bytes_to_hex, hex_digit}
use webex_generic_account_bo.Jobs.Records.{Codec, message_job_path, message_id_digest}
use webex_generic_account_bo.Jobs.Files.{
  strip_suffix, is_digest_byte, is_job_digest, is_job_filename,
}

-- SHA-256 gives 32 bytes.
pub record IsDigest (c : Codec) : Type 0 where
  pub wide : (bs : List ℕ) → length (c.sha256 bs) ≡ 32
  pub in_range : (bs : List ℕ) → All (λ b. b < 256) (c.sha256 bs)

longer : (suffix s : Text) (c : ℕ) → text_eq suffix (c ∷ (s ++ suffix)) ≡ false
longer suffix s c = ground (
  arith,
  λ (h : text_eq suffix (c ∷ (s ++ suffix)) ≡ true). ap length (text_eq_sound suffix _ h),
  length-append s suffix,
)

strip_suffix_append : (s suffix : Text) → strip_suffix suffix (s ++ suffix) ≡ some s
unfolding strip_suffix
strip_suffix_append [] [] = ground (arith, text_eq_refl [])
strip_suffix_append [] (c ∷ suffix) = ground (arith, text_eq_refl (c ∷ suffix))
strip_suffix_append (c ∷ s) suffix = ground (arith, longer suffix s c, strip_suffix_append s suffix)

hex_digit_range : (d : ℕ) → d < 16 → (is_digest_byte (hex_digit d) ≡ true) × (hex_digit d < 0x80)
unfolding is_digest_byte hex_digit
hex_digit_range d h = ground arith

as_bytes-ascii : (s : Text) → All (λ c. c < 0x80) s → as_bytes s ≡ s
unfolding as_bytes encode_char
as_bytes-ascii [] h = refl
as_bytes-ascii (c ∷ s) h = ground (arith, as_bytes-ascii s h.1)

bytes_to_hex-ascii : (bs : List ℕ) → All (λ b. b < 256) bs → All (λ c. c < 0x80) (bytes_to_hex bs)
unfolding bytes_to_hex
bytes_to_hex-ascii [] h = tt
bytes_to_hex-ascii (b ∷ bs) h = (
  (hex_digit_range (b / 16) (omega arith)).1,
  ((hex_digit_range (b % 16) (omega arith)).1, bytes_to_hex-ascii bs h.1),
)

bytes_to_hex-digits :
    (bs : List ℕ)
    → All (λ b. b < 256) bs
    → (all is_digest_byte (bytes_to_hex bs) ≡ true) × (length (bytes_to_hex bs) ≡ 2 * length bs)
unfolding bytes_to_hex
bytes_to_hex-digits [] h = (refl, omega arith)
bytes_to_hex-digits (b ∷ bs) h =
    let ih = bytes_to_hex-digits bs h.1 in
    ground (arith, hex_digit_range (b / 16), hex_digit_range (b % 16), ih)

-- The name of a job file is one.
pub message_job_path-IsJob :
    (c : Codec) → IsDigest c → (id : Text) → is_job_filename (message_job_path c id) ≡ true
unfolding message_job_path is_job_filename is_job_digest message_id_digest byte_len
message_job_path-IsJob c d id =
    let digest = c.sha256 (as_bytes id) in
    let digits = bytes_to_hex-digits digest (d.in_range _) in
    let ascii = as_bytes-ascii (bytes_to_hex digest) (bytes_to_hex-ascii digest (d.in_range _)) in
    let wide = d.wide (as_bytes id) in
    rw (strip_suffix_append (bytes_to_hex digest) (text ".json"))
      (rw ascii (rw (digits.0) (ground (arith, digits.1, wide))))

dot_digest : (r : Text) → is_job_digest (some (b'.' ∷ r)) ≡ false
unfolding is_job_digest as_bytes encode_char is_digest_byte
dot_digest r = ground arith

-- A name that begins with a dot is that of no job file.
dot_name : (suffix s : Text) → is_job_digest (strip_suffix suffix (b'.' ∷ s)) ≡ false
unfolding strip_suffix is_job_digest byte_len as_bytes
dot_name suffix s =
    elim (text_eq suffix (b'.' ∷ s))
      as (λ b.
        is_job_digest (elim b [
          | true ↦ some []
          | false ↦ elim (strip_suffix suffix s) [ none ↦ none | some r ↦ some (b'.' ∷ r) ]
        ])
        ≡ false) [
          | true ↦ refl
          | false ↦
              elim (strip_suffix suffix s)
                as (λ o.
                  is_job_digest (elim o [ none ↦ none | some r ↦ some (b'.' ∷ r) ]) ≡ false) [
                    | none ↦ refl
                    | some r ↦ dot_digest r
                  ]
        ]

-- A candidate's name is that of no job file.
pub candidate_name : (s : Text) → is_job_filename (text ".pending-" ++ s) ≡ false
unfolding is_job_filename text
candidate_name s = dot_name (text ".json") (text "pending-" ++ s)
