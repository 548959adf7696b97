-- ===== src/Ber/Digits.antt =====
-- The big-endian digits that asn1Len and asn1Int write, as a number.
use ipscry.Common.{
  ℕ, zero, suc, ◌+◌, ◌*◌, ◌/◌, ◌%◌, ◌^◌, ◌≤◌, ◌<◌, ◌≡◌, refl, sym, ◌∙◌, inl, inr, [], ◌∷◌, ◌++◌,
  append_assoc, arith, ◌==◌, if◌then◌else◌, Bool-cases, length, All, length-append, All-append,
  IsByte, Bytes,
}
use ipscry.Ber.{big_endian}

-- The number that big-endian digits stand for.
unfoldable pub value_onto : ℕ → Bytes → ℕ
value_onto acc [] = acc
value_onto acc (x ∷ xs) = value_onto (acc * 256 + x) xs

unfoldable pub digits : ℕ → ℕ → Bytes
digits zero n = []
digits (suc fuel) n =
    let more = digits fuel (n / 256) ++ ((n % 256) ∷ []) in if n == 0 then [] else more

pub big_endian-digits : (fuel n : ℕ) (b : Bytes) → big_endian fuel n b ≡ digits fuel n ++ b
unfolding big_endian digits
big_endian-digits zero n b = refl
big_endian-digits (suc fuel) n b = elim (Bool-cases (n == 0)) [
  | inl e ↦ rw e
  | inr e ↦
      rw e (big_endian-digits fuel (n / 256) _ ∙ sym (append_assoc (digits fuel (n / 256)) _ b))
]

pub value_onto-append :
    (xs ys : Bytes) (acc : ℕ) → value_onto acc (xs ++ ys) ≡ value_onto (value_onto acc xs) ys
unfolding value_onto
value_onto-append [] ys acc = refl
value_onto-append (x ∷ xs) ys acc = value_onto-append xs ys (acc * 256 + x)

-- With a round for each byte of `n` the digits stand for `n`.
pub value_onto-digits : (fuel n : ℕ) → n < 256 ^ fuel → value_onto 0 (digits fuel n) ≡ n
unfolding digits value_onto
value_onto-digits zero n h = omega arith
value_onto-digits (suc fuel) n h = elim (Bool-cases (n == 0)) [
  | inl e ↦ rw e (ground arith)
  | inr e ↦ rw (e, value_onto-append) (ground (arith, value_onto-digits fuel (n / 256)))
]

pub length-digits : (fuel n k : ℕ) → n < 256 ^ k → length (digits fuel n) ≤ k
unfolding digits
length-digits zero n k h = omega arith
length-digits (suc fuel) n zero h = ground arith
length-digits (suc fuel) n (suc k) h = ground (
  arith,
  length-append {0} (digits fuel (n / 256)) ((n % 256) ∷ []),
  length-digits fuel (n / 256) k,
)

pub digits-All : (fuel n : ℕ) → All IsByte (digits fuel n)
unfolding digits
digits-All zero n = tt
digits-All (suc fuel) n = elim (Bool-cases (n == 0)) [
  | inl e ↦ rw e tt
  | inr e ↦ rw e (All-append IsByte _ _ (digits-All fuel (n / 256)) (omega arith))
]

pub length-digits_pos : (fuel n : ℕ) → 0 < n → 0 < length (digits (suc fuel) n)
unfolding digits
length-digits_pos fuel n h =
    ground (arith, length-append {0} (digits fuel (n / 256)) ((n % 256) ∷ []))
