-- ===== src/Ber/Total.antt =====
-- readTLV on any input: it returns, and what it returns is a part of the input.
use ipscry.Common.{
  ℕ, zero, suc, ◌+◌, ◌-◌, ◌*◌, ◌≤◌, bit_and, ◌≡◌, sym, ap, ◌∙◌, inl, inr, ◌||◌, Option, none, some,
  ◌++◌, arith, ltb, ◌==◌, ltb→le, Bool-cases, length, take, drop, take-all, length-take,
  length-drop, take-append-drop, drop-drop, Ends, Ends-bind, at-lt, slice-le, Bytes,
}
use ipscry.Ber.{Tlv, long_length, take_content, read_long, read_tlv}

-- The triple is cut out of `b` behind a header of two bytes or more, and nothing is lost.
abbrev pub IsCut : Bytes → Option Tlv → Type 0
IsCut b none = Unit
IsCut b (some t) = (header : Bytes) × (b ≡ header ++ (t.content ++ t.rest)) × (2 ≤ length header)

take_content-IsCut :
    (b : Bytes) (tag len idx : ℕ) → 2 ≤ idx → Ends (IsCut b) (take_content b tag len idx)
unfolding take_content
take_content-IsCut b tag len idx h = elim (Bool-cases (ltb (length b) (idx + len))) [
  | inl e ↦ rw e tt
  | inr e ↦
      let fits : idx + len ≤ length b = ltb→le _ _ e in
      rw
        (
          e,
          slice-le b idx (idx + len) (omega arith) fits,
          slice-le b (idx + len) (length b) fits (omega arith),
        )
        (
          take idx b,
          sym (
              ap
                (λ k.
                  take idx b
                  ++ (take k (drop idx b) ++ take (length b - (idx + len)) (drop (idx + len) b)))
                (omega arith)
              ∙ ap (λ t. take idx b ++ (take len (drop idx b) ++ t))
                  (take-all _ _ (omega (arith, length-drop {0} (idx + len) b))
                    ∙ sym (drop-drop len idx b))
              ∙ ap (λ t. take idx b ++ t) (take-append-drop len (drop idx b))
              ∙ take-append-drop idx b),
          omega (arith, length-take {0} idx b),
        )
]

long_length-Ends :
    (b : Bytes) (rounds j acc : ℕ)
    → 2 + (j + rounds) ≤ length b
    → Ends (λ _. Unit) (long_length b rounds j acc)
unfolding long_length
long_length-Ends b zero j acc h = tt
long_length-Ends b (suc rounds) j acc h =
    let (x, e) = at-lt b (2 + j) (omega arith) in
    rw e (long_length-Ends b rounds (j + 1) (acc * 256 + x) (omega arith))

read_long-IsCut : (b : Bytes) (tag n : ℕ) → Ends (IsCut b) (read_long b tag n)
unfolding read_long
read_long-IsCut b tag n = elim (Bool-cases (n == 0 || (ltb 4 n || ltb (length b) (2 + n)))) [
  | inl e ↦ rw e tt
  | inr e ↦ rw e (
      Ends-bind (λ _. Unit) (IsCut b) (long_length b n 0 0) _
        (long_length-Ends b n 0 0 (ground arith))
        (λ len _. take_content-IsCut b tag len (2 + n) (omega arith)))
]

-- `readTLV` never reads out of bounds, whatever the bytes. Where it succeeds, the input is a header
-- of at least two bytes, then the content, then the rest.
pub read_tlv_total : (b : Bytes) → Ends (IsCut b) (read_tlv b)
unfolding read_tlv
read_tlv_total b = elim (Bool-cases (ltb (length b) 2)) [
  | inl e ↦ rw e tt
  | inr e ↦
      let long = ltb→le _ _ e in
      let (tag, e0) = at-lt b 0 (omega arith) in
      let (first, e1) = at-lt b 1 (omega arith) in
      rw (e, e0, e1)
        (elim (Bool-cases (bit_and first 0x80 == 0)) [
          | inl s ↦ rw s (take_content-IsCut b tag first 2 (omega arith))
          | inr l ↦ rw l (read_long-IsCut b tag (bit_and first 0x7f))
        ])
]
