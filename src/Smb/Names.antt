-- ===== src/Smb/Names.antt =====
-- Which name parseNTLMChallenge takes from the target info of a challenge.
use ipscry.Common.{
  ℕ, zero, suc, ◌+◌, ◌*◌, ◌/◌, ◌%◌, ◌^◌, ◌≤◌, ◌<◌, ◌≡◌, refl, sym, ap, ◌∙◌, inl, inr, false, ◌||◌,
  List, [], ◌∷◌, ◌++◌, append_assoc, arith, ltb, ◌==◌, if◌then◌else◌, le→ltb, Bool-cases, length,
  All, length-append, Go, done, at, slice, at-append, at-offset, slice-append, Bytes,
}
use ipscry.Sanitize.{sanitize_one_line}
use ipscry.Smb.{le_uint16, utf16_le, challenge_name, use_attribute, scan_attributes}

-- An attribute of the target info; the length has two bytes.
abbrev pub Attribute : Type 0
Attribute = ℕ × Bytes

abbrev pub IsAttribute : Attribute → Type 0
IsAttribute (id, value) = (0 < id) × (id < 2 ^ 16) × (length value < 2 ^ 16)

abbrev pub encode_attribute : Attribute → Bytes
encode_attribute (id, value) = id % 256 ∷ id / 256 ∷ length value % 256 ∷ length value / 256 ∷ value

abbrev pub encode_attributes : List Attribute → Bytes
encode_attributes [] = []
encode_attributes (a ∷ attributes) = encode_attribute a ++ encode_attributes attributes

-- The text of the last attribute of a kind, else the given one
abbrev pub last_text : ℕ → List Attribute → Bytes → Bytes
last_text kind [] other = other
last_text kind ((id, value) ∷ attributes) other =
    last_text kind attributes (if id == kind then utf16_le value else other)

le_at :
    (front back : Bytes) (v off : ℕ)
    → off ≡ length front
    → le_uint16 (front ++ (v % 256 ∷ v / 256 ∷ back)) off ≡ done v
unfolding le_uint16 at
le_at front back v off e =
    let a : at (front ++ (v % 256 ∷ v / 256 ∷ back)) off ≡ done (v % 256) =
      at-append front (v / 256 ∷ back) (v % 256) off e in
    let b : at (front ++ (v % 256 ∷ v / 256 ∷ back)) (off + 1) ≡ done (v / 256) =
      at-offset front (v % 256 ∷ v / 256 ∷ back) (off + 1) 1 (omega arith) in
    let sum : v % 256 + v / 256 * 256 ≡ v = omega arith in rw (a, b, sum) refl

use_attribute_lem :
    (more : Bytes → Bytes → Go Bytes) (id : ℕ) (value nb dns : Bytes)
    → use_attribute more id value nb dns
      ≡ more (if id == 1 then utf16_le value else nb) (if id == 3 then utf16_le value else dns)
unfolding use_attribute
use_attribute_lem more id value nb dns = elim (Bool-cases (id == 1)) [
  | inl a ↦ let b : (id == 3) ≡ false = ground arith in rw (a, b) refl
  | inr a ↦ elim (Bool-cases (id == 3)) [ inl b ↦ rw (a, b) refl | inr b ↦ rw (a, b) refl ]
]

-- The bytes before the text of an attribute
abbrev head : ℕ → Bytes → Bytes
head id value = id % 256 ∷ id / 256 ∷ length value % 256 ∷ length value / 256 ∷ []

-- A round of the loop on an attribute that is not the end
scan_attribute :
    (fuel id : ℕ) (value more front nb dns : Bytes)
    → 0 < id
    → scan_attributes (suc fuel) ((front ++ head id value) ++ (value ++ more)) (length front) nb dns
      ≡ scan_attributes fuel
          ((front ++ head id value) ++ (value ++ more))
          (length front + 4 + length value)
          (if id == 1 then utf16_le value else nb)
          (if id == 3 then utf16_le value else dns)
unfolding scan_attributes
scan_attribute fuel id value more front nb dns p =
    let start = front ++ head id value in
    let info = start ++ (value ++ more) in
    let shape = append_assoc front (head id value) (value ++ more) in
    let shape2 =
      ap (λ r. r ++ (value ++ more))
        (append_assoc front (id % 256 ∷ id / 256 ∷ [])
          (length value % 256 ∷ length value / 256 ∷ [])) in
    let shape3 =
      append_assoc (front ++ (id % 256 ∷ id / 256 ∷ []))
        (length value % 256 ∷ length value / 256 ∷ []) (value ++ more) in
    let size : length start ≡ length front + 4 =
      omega (arith, length-append {0} front (head id value)) in
    let long = length-append {0} start (value ++ more) in
    let long2 = length-append {0} value more in
    let first : le_uint16 info (length front) ≡ done id =
      ap (λ r. le_uint16 r (length front)) shape
      ∙ le_at front (length value % 256 ∷ length value / 256 ∷ (value ++ more)) id (length front)
          refl in
    let second : le_uint16 info (length front + 2) ≡ done (length value) =
      ap (λ r. le_uint16 r (length front + 2)) (sym shape2 ∙ shape3)
      ∙ le_at (front ++ (id % 256 ∷ id / 256 ∷ [])) (value ++ more) (length value)
          (length front + 2) (omega (arith, length-append {0} front (id % 256 ∷ id / 256 ∷ []))) in
    let cut : slice info (length front + 4) (length front + 4 + length value) ≡ done value =
      ap (λ k. slice info k (k + length value)) (sym size) ∙ slice-append start value more in
    let fits : ltb (length info) (length front + 4) ≡ false = le→ltb _ _ (omega arith) in
    let holds : (id == 0 || ltb (length info) (length front + 4 + length value)) ≡ false =
      ground arith in
    rw (fits) (
      rw (first, second)
        (rw (holds) (
          rw (cut) (
            use_attribute_lem (scan_attributes fuel info (length front + 4 + length value)) id value
              nb dns))))

-- The first text, or where it is empty the other
abbrev pub preferred : Bytes → Bytes → Bytes
preferred [] other = other
preferred (c ∷ text) other = c ∷ text

challenge_name_lem : (nb dns : Bytes) → challenge_name nb dns ≡ sanitize_one_line (preferred dns nb)
unfolding challenge_name
challenge_name_lem nb [] = refl
challenge_name_lem nb (c ∷ dns) =
    let e : (length (c ∷ dns) == 0) ≡ false = ground arith in rw (e) refl

scan_end :
    (fuel : ℕ) (front rest nb dns : Bytes)
    → scan_attributes (suc fuel) (front ++ (0 ∷ 0 ∷ 0 ∷ 0 ∷ rest)) (length front) nb dns
      ≡ done (challenge_name nb dns)
unfolding scan_attributes
scan_end fuel front rest nb dns =
    let back = 0 ∷ 0 ∷ 0 ∷ 0 ∷ rest in
    let size = length-append {0} front back in
    let fits : ltb (length (front ++ back)) (length front + 4) ≡ false = le→ltb _ _ (omega arith) in
    let id = le_at front (0 ∷ 0 ∷ rest) 0 (length front) refl in
    let len : le_uint16 (front ++ back) (length front + 2) ≡ done 0 =
      ap (λ r. le_uint16 r (length front + 2))
        (sym (append_assoc front (0 ∷ 0 ∷ []) (0 ∷ 0 ∷ rest)))
      ∙ le_at (front ++ (0 ∷ 0 ∷ [])) rest 0 (length front + 2)
          (omega (arith, length-append {0} front (0 ∷ 0 ∷ []))) in
    rw (fits) (rw (id, len) refl)

abbrev pub ending : Bytes → Bytes
ending rest = 0 ∷ 0 ∷ 0 ∷ 0 ∷ rest

scan_attributes_lem :
    (attributes : List Attribute) (fuel : ℕ) (front rest nb dns : Bytes)
    → All IsAttribute attributes
    → length attributes < fuel
    → scan_attributes fuel
        (front ++ (encode_attributes attributes ++ ending rest))
        (length front)
        nb
        dns
      ≡ done (challenge_name (last_text 1 attributes nb) (last_text 3 attributes dns))
scan_attributes_lem attributes zero front rest nb dns all h = ground arith
scan_attributes_lem [] (suc fuel) front rest nb dns all h = scan_end fuel front rest nb dns
scan_attributes_lem ((id, value) ∷ attributes) (suc fuel) front rest nb dns ((p, wide, short), all)
      h =
    let more = encode_attributes attributes ++ ending rest in
    let start = front ++ head id value in
    let next = start ++ value in
    let size : length next ≡ length front + 4 + length value =
      omega (arith, length-append {0} front (head id value), length-append {0} start value) in
    let shape : front ++ (encode_attributes ((id, value) ∷ attributes) ++ ending rest)
        ≡ start ++ (value ++ more) =
      ap (λ r. front ++ (head id value ++ r))
        (append_assoc value (encode_attributes attributes) (ending rest))
      ∙ sym (append_assoc front (head id value) (value ++ more)) in
    let nb2 = if id == 1 then utf16_le value else nb in
    let dns2 = if id == 3 then utf16_le value else dns in
    ap (λ r. scan_attributes (suc fuel) r (length front) nb dns) shape
    ∙ scan_attribute fuel id value more front nb dns p
    ∙ ap (λ r. scan_attributes fuel r (length front + 4 + length value) nb2 dns2)
        (sym (append_assoc start value more))
    ∙ ap (λ k. scan_attributes fuel (next ++ more) k nb2 dns2) (sym size)
    ∙ scan_attributes_lem attributes fuel next rest nb2 dns2 all (omega arith)

encode_attributes-length :
    (attributes : List Attribute) → length attributes ≤ length (encode_attributes attributes)
encode_attributes-length [] = omega arith
encode_attributes-length ((id, value) ∷ attributes) = omega (
  arith,
  encode_attributes-length attributes,
  length-append {0} value (encode_attributes attributes),
)

-- From a target info of attributes and the end mark, whatever follows it, the loop of parseNTLMChallenge takes
-- the sanitized text of the last DNS computer name, or where that is missing or empty the one of the last
-- NetBIOS computer name, with as many rounds as the info has bytes, and one.
pub scan_attributes-last :
    (attributes : List Attribute) (rest : Bytes)
    → All IsAttribute attributes
    → scan_attributes
        (suc (length (encode_attributes attributes ++ ending rest)))
        (encode_attributes attributes ++ ending rest)
        0
        []
        []
      ≡ done (sanitize_one_line (preferred (last_text 3 attributes []) (last_text 1 attributes [])))
scan_attributes-last attributes rest all =
    scan_attributes_lem attributes (suc (length (encode_attributes attributes ++ ending rest))) []
      rest [] [] all
      (omega (
        arith,
        encode_attributes-length attributes,
        length-append {0} (encode_attributes attributes) (ending rest),
      ))
    ∙ ap done (challenge_name_lem (last_text 1 attributes []) (last_text 3 attributes []))
