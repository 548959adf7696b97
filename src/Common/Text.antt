-- ===== src/Common/Text.antt =====
-- Go strings as lists of bytes: the functions of package strings that the program calls.
use Prim.Native.Nat.{ℕ, ◌+◌, ◌-◌}
use Prim.Native.Char.{code}
use Prim.Native.String.{String}
use mathlib.Core.Path.{◌≡◌}
use mathlib.Core.Logic.{◌↔◌}
use mathlib.Core.Bool.{Bool, true, false, ◌&&◌, ◌||◌}
use mathlib.Core.Option.{Option, none, some}
use mathlib.Core.List.{List, [], ◌∷◌, ◌++◌, map, reverse}
use native.Mathlib.Omega.{arith}
use ipscry.Common.Tests.{◌==◌, leb, ltb, if◌then◌else◌}
use ipscry.Common.Lists.{length, drop, take}
use ipscry.Common.Bits.{Bytes}

-- The bytes of an ASCII literal.
abbrev pub codes : String → Bytes
codes String.[] = []
codes (String.◌∷◌ c s) = code c ∷ codes s

-- `a == b` on strings
unfoldable pub text_eq : Bytes → Bytes → Bool
text_eq [] [] = true
text_eq (x ∷ xs) (y ∷ ys) = x == y && text_eq xs ys
text_eq _ _ = false

pub text_eq_iff : (a b : Bytes) → (text_eq a b ≡ true) ↔ (a ≡ b)
unfolding text_eq
text_eq_iff (x ∷ a) (y ∷ b) = ground (arith, text_eq_iff a b)
text_eq_iff _ _ = ground arith

-- `a < b` on strings: by the bytes
unfoldable pub text_lt : Bytes → Bytes → Bool
text_lt [] [] = false
text_lt [] (y ∷ ys) = true
text_lt (x ∷ xs) [] = false
text_lt (x ∷ xs) (y ∷ ys) = ltb x y || (x == y && text_lt xs ys)

-- `strings.HasPrefix(s, p)`, with the arguments turned round
unfoldable pub has_prefix : Bytes → Bytes → Bool
has_prefix [] s = true
has_prefix (x ∷ p) [] = false
has_prefix (x ∷ p) (y ∷ s) = x == y && has_prefix p s

unfoldable pub has_suffix : Bytes → Bytes → Bool
unfolding has_prefix
has_suffix p s = has_prefix (reverse p) (reverse s)

-- `strings.TrimPrefix`, `strings.TrimSuffix`
unfoldable pub trim_prefix : Bytes → Bytes → Bytes
unfolding has_prefix
trim_prefix p s = if has_prefix p s then drop (length p) s else s

unfoldable pub trim_suffix : Bytes → Bytes → Bytes
unfolding has_suffix
trim_suffix p s = if has_suffix p s then take (length s - length p) s else s

-- `strings.Contains(s, p)`
unfoldable pub contains : Bytes → Bytes → Bool
unfolding has_prefix
contains p [] = has_prefix p []
contains p (c ∷ s) = has_prefix p (c ∷ s) || contains p s

-- `strings.Index(s, p)`, with `none` for -1
unfoldable pub index_from : ℕ → Bytes → Bytes → Option ℕ
unfolding has_prefix
index_from i p [] = if has_prefix p [] then some i else none
index_from i p (c ∷ s) =
    let later = index_from (i + 1) p s in if has_prefix p (c ∷ s) then some i else later

unfoldable pub index : Bytes → Bytes → Option ℕ
unfolding index_from
index p s = index_from 0 p s

-- `strings.Split` and `strings.Cut` at one byte
unfoldable pub split_onto : ℕ → Bytes → Bytes → List Bytes
split_onto sep part [] = part ∷ []
split_onto sep part (c ∷ s) =
    let cut = part ∷ split_onto sep [] s in
    let more = split_onto sep (part ++ c ∷ []) s in if c == sep then cut else more

unfoldable pub split : ℕ → Bytes → List Bytes
unfolding split_onto
split sep s = split_onto sep [] s

unfoldable pub cut_onto : ℕ → Bytes → Bytes → Option (Bytes × Bytes)
cut_onto sep front [] = none
cut_onto sep front (c ∷ s) =
    let more = cut_onto sep (front ++ c ∷ []) s in if c == sep then some (front, s) else more

unfoldable pub cut : ℕ → Bytes → Option (Bytes × Bytes)
unfolding cut_onto
cut sep s = cut_onto sep [] s

-- `strings.Join`
unfoldable pub join : Bytes → List Bytes → Bytes
join sep [] = []
join sep (x ∷ []) = x
join sep (x ∷ y ∷ xs) = x ++ (sep ++ join sep (y ∷ xs))

-- `strings.ToLower` and `strings.ToUpper`, on ASCII text
unfoldable pub lower_byte : ℕ → ℕ
lower_byte c = if leb b'A' c && leb c b'Z' then c + 32 else c

unfoldable pub to_lower : Bytes → Bytes
unfolding lower_byte
to_lower s = map lower_byte s

unfoldable pub upper_byte : ℕ → ℕ
upper_byte c = if leb b'a' c && leb c b'z' then c - 32 else c

unfoldable pub to_upper : Bytes → Bytes
unfolding upper_byte
to_upper s = map upper_byte s
