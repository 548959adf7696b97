-- ===== src/Sanitize.antt =====
-- sanitizeOneLine of main.go: one line of at most 240 bytes.
pub mod Bounds
use ipscry.Common.{
  ℕ, zero, suc, Bool, true, false, not, ◌&&◌, Option, none, some, List, [], ◌∷◌, map, ltb, leb,
  ◌==◌, if◌then◌else◌, length, take, Bytes,
}
use ipscry.Common.Trim.{trim_space}

abbrev pub max_field_len : ℕ
max_field_len = 240

-- The ranges that the bytes behind the first one of a UTF-8 sequence must lie in; `none` for a byte
-- that starts no sequence.
unfoldable pub trailing : ℕ → Option (List (ℕ × ℕ))
trailing c =
    if ltb c 0x80
    then some []
    else if ltb c 0xc2
    then none
    else if ltb c 0xe0
    then some ((0x80, 0xbf) ∷ [])
    else if c == 0xe0
    then some ((0xa0, 0xbf) ∷ (0x80, 0xbf) ∷ [])
    else if c == 0xed
    then some ((0x80, 0x9f) ∷ (0x80, 0xbf) ∷ [])
    else if ltb c 0xf0
    then some ((0x80, 0xbf) ∷ (0x80, 0xbf) ∷ [])
    else if c == 0xf0
    then some ((0x90, 0xbf) ∷ (0x80, 0xbf) ∷ (0x80, 0xbf) ∷ [])
    else if ltb c 0xf4
    then some ((0x80, 0xbf) ∷ (0x80, 0xbf) ∷ (0x80, 0xbf) ∷ [])
    else if c == 0xf4
    then some ((0x80, 0x8f) ∷ (0x80, 0xbf) ∷ (0x80, 0xbf) ∷ [])
    else none

-- `utf8.ValidString`, with the ranges that the next bytes must lie in.
unfoldable pub valid_from : List (ℕ × ℕ) → Bytes → Bool
unfolding trailing
valid_from [] [] = true
valid_from ((lo, hi) ∷ need) [] = false
valid_from [] (c ∷ s) = elim (trailing c) [ none ↦ false | some need ↦ valid_from need s ]
valid_from ((lo, hi) ∷ need) (c ∷ s) = leb lo c && (leb c hi && valid_from need s)

unfoldable pub valid_string : Bytes → Bool
unfolding valid_from
valid_string s = valid_from [] s

-- `for len(trimmed) > 0 && !utf8.ValidString(trimmed)`, with `n` bytes left.
unfoldable pub trim_invalid : ℕ → Bytes → Bytes
trim_invalid zero s = []
trim_invalid (suc n) s =
    let shorter = trim_invalid n s in
    if not (valid_string (take (suc n) s)) then shorter else take (suc n) s

-- `strings.ReplaceAll` of one byte by a space
abbrev pub blank : ℕ → ℕ → ℕ
blank b c = if c == b then b' ' else c

unfoldable pub sanitize_one_line : Bytes → Bytes
unfolding trim_invalid
sanitize_one_line value =
    let line = trim_space (map (blank b'\n') (map (blank b'\r') value)) in
    if ltb max_field_len (length line)
    then trim_invalid max_field_len (take max_field_len line)
    else line
