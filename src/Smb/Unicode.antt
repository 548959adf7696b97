-- ===== src/Smb/Unicode.antt =====
-- What utf16LE makes of text in UTF-16.
use ipscry.Common.{
  ℕ, ◌+◌, ◌-◌, ◌*◌, ◌/◌, ◌%◌, ◌≤◌, ◌<◌, ◌≡◌, refl, ap, ◌∙◌, ◌⊎◌, inl, inr, true, false, ◌&&◌, ◌||◌,
  List, [], ◌∷◌, ◌++◌, arith, ltb, if◌then◌else◌, Bool-cases, length, All, Bytes,
}
use ipscry.Smb.{is_high, is_low, decode_one, utf16_decode, utf8_string, utf16_codes, utf16_le}

-- A Unicode scalar value: no surrogate
abbrev pub IsScalar : ℕ → Type 0
IsScalar r = (r < 0x110000) × ((r < 0xd800) ⊎ (0xe000 ≤ r))

-- Little endian
abbrev pub two_bytes : ℕ → Bytes
two_bytes c = c % 256 ∷ c / 256 ∷ []

-- A rune in UTF-16: one unit, or a pair of surrogates with ten bits each
abbrev pub utf16_units : ℕ → Bytes
utf16_units r =
    if ltb r 0x10000
    then two_bytes r
    else two_bytes (0xd800 + (r - 0x10000) / 1024) ++ two_bytes (0xdc00 + (r - 0x10000) % 1024)

abbrev pub utf16_text : List ℕ → Bytes
utf16_text [] = []
utf16_text (r ∷ runes) = utf16_units r ++ utf16_text runes

codes-two_bytes : (c : ℕ) (b : Bytes) → utf16_codes (two_bytes c ++ b) ≡ c ∷ utf16_codes b
unfolding utf16_codes
codes-two_bytes c b =
    let e : c % 256 + c / 256 * 256 ≡ c = omega arith in ap (λ x. x ∷ utf16_codes b) e

decode-unit :
    (c : ℕ) (codes : List ℕ)
    → (c < 0xd800) ⊎ (0xe000 ≤ c)
    → utf16_decode (c ∷ codes) ≡ c ∷ utf16_decode codes
unfolding utf16_decode decode_one is_high is_low
decode-unit c [] h = let e : (is_high c || is_low c) ≡ false = ground arith in rw (e) refl
decode-unit c (d ∷ codes) h =
    let e : (is_high c || is_low c) ≡ false = ground arith in
    let k : (is_high c && is_low d) ≡ false = ground arith in rw (k) (rw (e) refl)

decode-pair :
    (r : ℕ) (codes : List ℕ)
    → 0x10000 ≤ r
    → r < 0x110000
    → utf16_decode ((0xd800 + (r - 0x10000) / 1024) ∷ (0xdc00 + (r - 0x10000) % 1024) ∷ codes)
      ≡ r ∷ utf16_decode codes
unfolding utf16_decode is_high is_low
decode-pair r codes h k =
    let high = 0xd800 + (r - 0x10000) / 1024 in
    let low = 0xdc00 + (r - 0x10000) % 1024 in
    let e : (is_high high && is_low low) ≡ true = ground arith in
    let sum : (high - 0xd800) * 1024 + (low - 0xdc00) + 0x10000 ≡ r = omega arith in
    rw (e) (ap (λ x. x ∷ utf16_decode codes) sum)

-- The codes of the text are decoded to its runes.
decode-utf16_text :
    (runes : List ℕ) (odd : Bytes)
    → All IsScalar runes
    → length odd ≤ 1
    → utf16_decode (utf16_codes (utf16_text runes ++ odd)) ≡ runes
decode-utf16_text [] [] all h = unfold utf16_codes utf16_decode in refl
decode-utf16_text [] (b ∷ []) all h = unfold utf16_codes utf16_decode in refl
decode-utf16_text [] (b ∷ c ∷ odd) all h = absurd (omega arith)
decode-utf16_text (r ∷ runes) odd ((small, scalar), all) h =
    let rest = utf16_text runes ++ odd in
    let later = decode-utf16_text runes odd all h in
    elim (Bool-cases (ltb r 0x10000)) [
      | inl e ↦ rw (e) (
          ap utf16_decode (codes-two_bytes r rest)
          ∙ decode-unit r (utf16_codes rest) scalar
          ∙ ap (λ x. r ∷ x) later)
      | inr e ↦
          let high = 0xd800 + (r - 0x10000) / 1024 in
          let low = 0xdc00 + (r - 0x10000) % 1024 in
          rw (e) (
            ap utf16_decode (
              codes-two_bytes high (two_bytes low ++ rest)
              ∙ ap (λ x. high ∷ x) (codes-two_bytes low rest))
            ∙ decode-pair r (utf16_codes rest) (ground arith) small
            ∙ ap (λ x. r ∷ x) later)
    ]

-- From any text in UTF-16, low bytes first and pairs of surrogates included, with an odd byte behind it or
-- without, utf16LE makes the same text in UTF-8.
pub utf16_le-utf16_text :
    (runes : List ℕ) (odd : Bytes)
    → All IsScalar runes
    → length odd ≤ 1
    → utf16_le (utf16_text runes ++ odd) ≡ utf8_string runes
unfolding utf16_le
utf16_le-utf16_text runes odd all h = ap utf8_string (decode-utf16_text runes odd all h)
