-- ===== src/Ber/RoundTrip.antt =====
-- readTLV reads back what asn1TLV wrote.
use ipscry.Common.{
  ℕ, ◌+◌, ◌-◌, ◌*◌, ◌%◌, ◌^◌, ◌≤◌, ◌<◌, bit_and, bit_or, ◌≡◌, refl, sym, ap, ◌∙◌, inl, inr, false,
  ◌||◌, some, [], ◌∷◌, ◌++◌, append-nil, append_assoc, arith, ltb, ◌==◌, ltb→lt, le→ltb, ltb→le,
  Bool-cases, length, take, drop, length-append, take-length, drop-length, take-all, drop-drop,
  done, at, slice-le, at-append, Bytes, low_seven, top_bit, set_top_bit,
}
use ipscry.Ber.{
  long_length, take_content, read_long, read_tlv, asn1_len, asn1_tlv, int_bytes, big_endian,
}
use ipscry.Ber.Digits.{
  value_onto, digits, big_endian-digits, value_onto-digits, length-digits, length-digits_pos,
}

-- `take_content` behind a header.
take_content-append :
    (header c rest : Bytes) (tag : ℕ)
    → take_content (header ++ (c ++ rest)) tag (length c) (length header)
      ≡ done (some (record { tag = tag; content = c; rest = rest }))
unfolding take_content
take_content-append header c rest tag =
    let whole = header ++ (c ++ rest) in
    let sizes = length-append {0} header (c ++ rest) in
    let sizes' = length-append {0} c rest in
    let behind : drop (length header + length c) whole ≡ rest =
      sym (drop-drop (length c) (length header) whole)
      ∙ ap (drop (length c)) (drop-length header (c ++ rest))
      ∙ drop-length c rest in
    rw
      (
        le→ltb (length whole) (length header + length c) (omega (arith, sizes, sizes')),
        slice-le whole (length header) (length header + length c) (omega arith)
            (omega (arith, sizes, sizes')),
        slice-le whole (length header + length c) (length whole) (omega (arith, sizes, sizes'))
            (omega arith),
        behind,
        drop-length header (c ++ rest),
      )
      (let middle : take (length header + length c - length header) (c ++ rest) ≡ c =
          ap (λ k. take k (c ++ rest)) (omega arith) ∙ take-length c rest in
        rw (
          middle,
          take-all (length whole - (length header + length c)) rest (omega (arith, sizes, sizes')),
        ))

-- The loop reads the digits that stand behind the first two bytes.
long_length-value :
    (front xs rest : Bytes) (j acc : ℕ)
    → length front ≡ 2 + j
    → long_length (front ++ (xs ++ rest)) (length xs) j acc ≡ done (value_onto acc xs)
unfolding long_length value_onto
long_length-value front [] rest j acc e = refl
long_length-value front (x ∷ xs) rest j acc e =
    rw (at-append front (xs ++ rest) x (2 + j) (sym e)) (
      ap (λ l. long_length l (length xs) (j + 1) (acc * 256 + x))
        (sym (append_assoc front (x ∷ []) (xs ++ rest)))
      ∙ long_length-value (front ++ x ∷ []) xs rest (j + 1) (acc * 256 + x)
          (omega (arith, length-append {0} front (x ∷ []), e)))

-- `readTLV` on a short header, and on a long one whose digits stand for the length.
read_tlv_short :
    (tag : ℕ) (c rest : Bytes)
    → length c < 128
    → read_tlv (tag ∷ length c ∷ (c ++ rest))
      ≡ done (some (record { tag = tag; content = c; rest = rest }))
unfolding read_tlv at
read_tlv_short tag c rest h =
    let low : bit_and (length c) 0x80 ≡ 0 = omega (arith, top_bit (length c)) in
    let whole = tag ∷ length c ∷ (c ++ rest) in
    rw (low, le→ltb (length whole) 2 (omega arith))
      (take_content-append (tag ∷ length c ∷ []) c rest tag)

read_tlv_long :
    (tag k : ℕ) (xs c rest : Bytes)
    → k ≡ length xs
    → 0 < k
    → k ≤ 4
    → value_onto 0 xs ≡ length c
    → read_tlv (tag ∷ bit_or 0x80 k ∷ (xs ++ (c ++ rest)))
      ≡ done (some (record { tag = tag; content = c; rest = rest }))
unfolding read_tlv read_long at
read_tlv_long tag k xs c rest e pos small v =
    let top : (bit_and (bit_or 0x80 k) 0x80 == 0) ≡ false =
      rw (set_top_bit k (omega arith)) (ground (arith, top_bit (k + 128))) in
    let low : bit_and (bit_or 0x80 k) 0x7f ≡ k =
      rw (set_top_bit k (omega arith)) (omega (arith, low_seven (k + 128))) in
    let front = tag ∷ bit_or 0x80 k ∷ [] in
    let sizes = length-append {0} xs (c ++ rest) in
    let guard : (k == 0 || (ltb 4 k || ltb (length (front ++ (xs ++ (c ++ rest)))) (2 + k)))
        ≡ false =
      ground (arith, sizes) in
    let loop : long_length (front ++ (xs ++ (c ++ rest))) k 0 0 ≡ done (length c) =
      ap (λ n. long_length (front ++ (xs ++ (c ++ rest))) n 0 0) e
      ∙ long_length-value front xs (c ++ rest) 0 0 (omega arith)
      ∙ ap done v in
    let idx : 2 + k ≡ length (front ++ xs) = omega (arith, e) in
    rw (top, low, le→ltb (length (front ++ (xs ++ (c ++ rest)))) 2 (omega arith), guard, loop, idx)
      (take_content-append (front ++ xs) c rest tag)

-- A content of fewer than 2 ^ 32 bytes is read back by `readTLV` with its tag, and the bytes that
-- follow are left as they were.
pub read_tlv-asn1_tlv :
    (tag : ℕ) (content rest : Bytes)
    → length content < 2 ^ 32
    → read_tlv (asn1_tlv tag content ++ rest)
      ≡ done (some (record { tag = tag; content = content; rest = rest }))
unfolding asn1_tlv asn1_len
read_tlv-asn1_tlv tag content rest h = elim (Bool-cases (ltb (length content) 0x80)) [
  | inl e ↦ rw e (read_tlv_short tag content rest (ltb→lt _ _ e))
  | inr e ↦
      let n = length content in
      let xs = digits int_bytes n in
      let written : big_endian int_bytes n [] ≡ xs =
        big_endian-digits int_bytes n [] ∙ append-nil xs in
      let small : length xs ≤ 4 = length-digits int_bytes n 4 (omega arith) in
      rw (e, written, append_assoc)
        (read_tlv_long tag (length xs % 256) xs content rest (omega arith)
          (omega (arith, length-digits_pos 7 n (omega (arith, ltb→le n 0x80 e)))) (omega arith)
          (value_onto-digits int_bytes n (omega arith)))
]
