-- ===== src/Common/Atoi.antt =====
-- `strconv.Atoi`: a sign, then one decimal digit or more, within 64 bits.
use ipscry.Common.Int.{ℤ, pos, negsuc}
use ipscry.Common.{
  ℕ, zero, suc, ◌+◌, ◌-◌, ◌*◌, ◌^◌, Bool, ◌&&◌, Option, none, some, [], ◌∷◌, ltb, leb, ◌==◌,
  if◌then◌else◌, Bytes,
}

abbrev pub is_digit : ℕ → Bool
is_digit c = leb b'0' c && leb c b'9'

-- The digits on top of the value read so far; no digit is left out.
unfoldable pub digits_onto : ℕ → Bytes → Option ℕ
digits_onto acc [] = some acc
digits_onto acc (c ∷ s) =
    let more = digits_onto (acc * 10 + (c - b'0')) s in if is_digit c then more else none

unfoldable pub digits : Bytes → Option ℕ
unfolding digits_onto
digits [] = none
digits (c ∷ s) = digits_onto 0 (c ∷ s)

abbrev positive : Option ℕ → Option ℤ
positive none = none
positive (some n) = if ltb n (2 ^ 63) then some (pos n) else none

abbrev negative : Option ℕ → Option ℤ
negative none = none
negative (some zero) = some (pos 0)
negative (some (suc n)) = if ltb n (2 ^ 63) then some (negsuc n) else none

unfoldable pub atoi : Bytes → Option ℤ
unfolding digits
atoi [] = none
atoi (c ∷ s) =
    if c == b'-'
    then negative (digits s)
    else if c == b'+'
    then positive (digits s)
    else positive (digits (c ∷ s))
