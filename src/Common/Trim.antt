-- ===== src/Common/Trim.antt =====
-- `strings.TrimSpace` on UTF-8 text, `strings.TrimRight`, and `sanitizeOneLine` of main.go.
use Prim.Native.Nat.{ℕ, zero, suc}
use mathlib.Core.Bool.{Bool, ◌&&◌, ◌||◌}
use mathlib.Core.List.{[], ◌∷◌, reverse}
use ipscry.Common.Tests.{◌==◌, leb, if◌then◌else◌}
use ipscry.Common.Lists.{length, drop}
use ipscry.Common.Bits.{Bytes}

-- White space of one byte: \t \n \v \f \r and the space.
abbrev pub ascii_space : ℕ → Bool
ascii_space c = (leb 9 c && leb c 13) || c == 32

-- The two bytes are U+0085 or U+00A0.
abbrev space_two : ℕ → ℕ → Bool
space_two a b = a == 0xc2 && (b == 0x85 || b == 0xa0)

-- The three bytes are U+1680, U+2000 to U+200A, U+2028, U+2029, U+202F, U+205F or U+3000.
abbrev space_three : ℕ → ℕ → ℕ → Bool
space_three a b c =
    (a == 0xe1 && (b == 0x9a && c == 0x80))
    || (a == 0xe2 && (b == 0x80 && (leb 0x80 c && leb c 0x8a)))
    || (a == 0xe2 && (b == 0x80 && (c == 0xa8 || (c == 0xa9 || c == 0xaf))))
    || (a == 0xe2 && (b == 0x81 && c == 0x9f))
    || (a == 0xe3 && (b == 0x80 && c == 0x80))

-- How many bytes the white-space rune at the front takes; 0 if there is none.
unfoldable pub space_width : Bytes → ℕ
space_width [] = 0
space_width (a ∷ []) = if ascii_space a then 1 else 0
space_width (a ∷ b ∷ []) = if ascii_space a then 1 else if space_two a b then 2 else 0
space_width (a ∷ b ∷ c ∷ s) =
    if ascii_space a then 1 else if space_two a b then 2 else if space_three a b c then 3 else 0

-- The same at the end of a text, of which the bytes come last to first.
unfoldable pub space_width_back : Bytes → ℕ
space_width_back [] = 0
space_width_back (a ∷ []) = if ascii_space a then 1 else 0
space_width_back (a ∷ b ∷ []) = if ascii_space a then 1 else if space_two b a then 2 else 0
space_width_back (a ∷ b ∷ c ∷ s) =
    if ascii_space a then 1 else if space_two b a then 2 else if space_three c b a then 3 else 0

-- Drops runes while there is one; a round takes a byte at least, so the length is fuel enough.
unfoldable pub trim_loop : ℕ → (Bytes → ℕ) → Bytes → Bytes
trim_loop zero width s = s
trim_loop (suc fuel) width s = elim (width s) [
  | zero ↦ s
  | suc k ↦ trim_loop fuel width (drop (suc k) s)
]

unfoldable pub trim_space : Bytes → Bytes
unfolding trim_loop space_width space_width_back
trim_space s =
    let front = trim_loop (length s) space_width s in
    reverse (trim_loop (length front) space_width_back (reverse front))

-- `strings.TrimLeft` with a set of bytes, and `TrimRight` by it
unfoldable pub trim_left : (ℕ → Bool) → Bytes → Bytes
trim_left p [] = []
trim_left p (c ∷ s) = if p c then trim_left p s else c ∷ s

unfoldable pub trim_right : (ℕ → Bool) → Bytes → Bytes
unfolding trim_left
trim_right p s = reverse (trim_left p (reverse s))
