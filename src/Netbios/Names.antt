-- ===== src/Netbios/Names.antt =====
-- Which name parseNBNSName chooses from a well-formed answer.
use ipscry.Common.{
  ℕ, ◌+◌, ◌*◌, ◌<◌, bit_and, ◌≡◌, refl, sym, ap, ◌∙◌, inl, inr, Bool, false, not, ◌&&◌, ◌||◌, List,
  [], ◌∷◌, ◌++◌, append_assoc, arith, ltb, leb, ◌==◌, if◌then◌else◌, le→ltb, Bool-cases, length,
  take, All, length-append, take-length, Go, done, at, slice, slice-le, at-append, at-offset,
  slice-append, Bytes,
}
use ipscry.Common.Trim.{trim_right}
use ipscry.Dns.{uint16}
use ipscry.Sanitize.{sanitize_one_line}
use ipscry.Netbios.{read_entry, use_entry, scan_names, parse_nbns_name, rdata_start, is_padding}

-- An entry of the name table as it stands on the wire; the name has 15 bytes.
pub record NameSlot : Type 0 where
  pub raw : Bytes
  pub suffix : ℕ
  pub flags_hi : ℕ
  pub flags_lo : ℕ

abbrev pub name_of : NameSlot → Bytes
name_of s = trim_right is_padding s.raw

abbrev pub is_group : NameSlot → Bool
is_group s = not (bit_and (s.flags_hi * 256 + s.flags_lo) 0x8000 == 0)

-- A name of one computer
abbrev pub is_unique : NameSlot → Bool
is_unique s = not (is_group s || length (name_of s) == 0)

abbrev pub is_workstation : NameSlot → Bool
is_workstation s = is_unique s && s.suffix == 0

abbrev pub first_name : (NameSlot → Bool) → List NameSlot → Bytes → Bytes
first_name p [] other = other
first_name p (s ∷ slots) other = if p s then name_of s else first_name p slots other

-- The name of the first workstation, else of the first computer, else nothing
abbrev pub computer_name : List NameSlot → Bytes
computer_name slots = first_name is_workstation slots (first_name is_unique slots [])

abbrev pub encode_slot : NameSlot → Bytes
encode_slot s = s.raw ++ (s.suffix ∷ s.flags_hi ∷ s.flags_lo ∷ [])

abbrev pub encode_slots : List NameSlot → Bytes
encode_slots [] = []
encode_slots (s ∷ slots) = encode_slot s ++ encode_slots slots

abbrev pub IsSlot : NameSlot → Type 0
IsSlot s = length s.raw ≡ 15

read_slot :
    (s : NameSlot)
    → IsSlot s
    → read_entry (encode_slot s)
      ≡ done (record { name = name_of s; suffix = s.suffix; group = is_group s })
unfolding read_entry uint16 at
read_slot s h =
    let size = length-append {0} s.raw (s.suffix ∷ s.flags_hi ∷ s.flags_lo ∷ []) in
    let cut : slice (encode_slot s) 0 15 ≡ done s.raw =
      slice-le (encode_slot s) 0 15 (omega arith) (omega arith)
      ∙ ap done (
          ap (λ k. take k (encode_slot s)) (sym h)
          ∙ take-length s.raw (s.suffix ∷ s.flags_hi ∷ s.flags_lo ∷ [])) in
    let a : at (encode_slot s) 15 ≡ done s.suffix =
      at-append s.raw (s.flags_hi ∷ s.flags_lo ∷ []) s.suffix 15 (sym h) in
    let b : at (encode_slot s) 16 ≡ done s.flags_hi =
      at-offset s.raw (s.suffix ∷ s.flags_hi ∷ s.flags_lo ∷ []) 16 1 (omega arith) in
    let c : at (encode_slot s) 17 ≡ done s.flags_lo =
      at-offset s.raw (s.suffix ∷ s.flags_hi ∷ s.flags_lo ∷ []) 17 2 (omega arith) in
    rw (cut, a, b, c) refl

-- What a scan with a fallback finds.
abbrev found : List NameSlot → Bytes → Bytes
found slots fallback =
    first_name is_workstation slots
      (if length fallback == 0 then first_name is_unique slots [] else fallback)

use_slot :
    (s : NameSlot) (slots : List NameSlot) (fallback : Bytes) (more : Bytes → Go Bytes)
    → ((f : Bytes) → more f ≡ done (sanitize_one_line (found slots f)))
    → use_entry more fallback (record { name = name_of s; suffix = s.suffix; group = is_group s })
      ≡ done (sanitize_one_line (found (s ∷ slots) fallback))
unfolding use_entry
use_slot s slots fallback more h = elim (Bool-cases (is_group s || length (name_of s) == 0)) [
  | inl u ↦ rw (u) (h fallback)
  | inr u ↦ elim (Bool-cases (s.suffix == 0)) [
    | inl w ↦ rw (u, w) refl
    | inr w ↦ elim (Bool-cases (length fallback == 0)) [
      | inl f ↦
          rw (u, w, f)
            (h (name_of s)
              ∙ (let named : (length (name_of s) == 0) ≡ false = ground arith in rw (named) refl))
      | inr f ↦ rw (u, w, f) (h fallback ∙ rw (f) refl)
    ]
  ]
]

scan_slots :
    (slots : List NameSlot) (front rest fallback : Bytes)
    → All IsSlot slots
    → scan_names (length slots) (front ++ (encode_slots slots ++ rest)) (length front) fallback
      ≡ done (sanitize_one_line (found slots fallback))
unfolding scan_names
scan_slots [] front rest [] h = refl
scan_slots [] front rest (c ∷ f) h = ground arith
scan_slots (s ∷ slots) front rest fallback (h, t) =
    let slot = encode_slot s in
    let more = encode_slots slots ++ rest in
    let size : length slot ≡ 18 =
      omega (arith, length-append {0} s.raw (s.suffix ∷ s.flags_hi ∷ s.flags_lo ∷ [])) in
    let shape : front ++ ((slot ++ encode_slots slots) ++ rest) ≡ front ++ (slot ++ more) =
      ap (λ x. front ++ x) (append_assoc slot (encode_slots slots) rest) in
    let long = length-append {0} front (slot ++ more) in
    let long2 = length-append {0} slot more in
    let entry : slice (front ++ (slot ++ more)) (length front) (length front + 18) ≡ done slot =
      ap (λ k. slice (front ++ (slot ++ more)) (length front) (length front + k)) (sym size)
      ∙ slice-append front slot more in
    let fits : ltb (length (front ++ (slot ++ more))) (length front + 18) ≡ false =
      le→ltb _ _ (omega arith) in
    let behind : length (front ++ slot) ≡ length front + 18 =
      omega (arith, length-append {0} front slot) in
    let next : (f : Bytes)
        → scan_names (length slots) (front ++ (slot ++ more)) (length front + 18) f
          ≡ done (sanitize_one_line (found slots f)) =
      λ f.
        ap (λ r. scan_names (length slots) r (length front + 18) f)
          (sym (append_assoc front slot more))
        ∙ ap (λ k. scan_names (length slots) ((front ++ slot) ++ more) k f) (sym behind)
        ∙ scan_slots slots (front ++ slot) rest f t in
    rw (shape, fits, entry, read_slot s h) (use_slot s slots fallback _ next)

low : (hi lo : ℕ) (rest : Bytes) → at (hi ∷ lo ∷ rest) 1 ≡ done lo
unfolding at
low hi lo rest = refl

-- On an answer of at least one record whose name table holds the given entries, parseNBNSName returns the
-- name of the first workstation of a single computer, else the first name of one, sanitized, and ignores
-- what follows the table.
pub parse_nbns_name_lem :
    (slots : List NameSlot) (pre mid rest : Bytes) (hi lo : ℕ)
    → All IsSlot slots
    → length pre ≡ 6
    → length mid ≡ 48
    → 0 < hi * 256 + lo
    → parse_nbns_name ((pre ++ (hi ∷ lo ∷ mid)) ++ (length slots ∷ (encode_slots slots ++ rest)))
      ≡ done (sanitize_one_line (computer_name slots))
unfolding parse_nbns_name uint16
parse_nbns_name_lem slots pre mid rest hi lo h p m some_ =
    let header = pre ++ (hi ∷ lo ∷ mid) in
    let size : length header ≡ 56 = omega (arith, length-append {0} pre (hi ∷ lo ∷ mid)) in
    let back = length slots ∷ (encode_slots slots ++ rest) in
    let long : leb (length (header ++ back)) rdata_start ≡ false =
      ground (arith, length-append {0} header back) in
    let a : at (header ++ back) 6 ≡ done hi =
      ap (λ x. at x 6) (append_assoc pre (hi ∷ lo ∷ mid) back)
      ∙ at-append pre ((lo ∷ mid) ++ back) hi 6 (sym p) in
    let b : at (header ++ back) 7 ≡ done lo =
      ap (λ x. at x 7) (append_assoc pre (hi ∷ lo ∷ mid) back)
      ∙ at-offset pre (hi ∷ lo ∷ (mid ++ back)) 7 1 (omega arith)
      ∙ low hi lo (mid ++ back) in
    let c : at (header ++ back) rdata_start ≡ done (length slots) =
      at-append header (encode_slots slots ++ rest) (length slots) 56 (sym size) in
    let full : header ++ back ≡ (header ++ length slots ∷ []) ++ (encode_slots slots ++ rest) =
      sym (append_assoc header (length slots ∷ []) (encode_slots slots ++ rest)) in
    let start : length (header ++ length slots ∷ []) ≡ 57 =
      omega (arith, length-append {0} header (length slots ∷ [])) in
    let answers : (hi * 256 + lo == 0) ≡ false = ground arith in
    rw (long, a, b, c, answers)
      (ap (λ r. scan_names (length slots) r 57 []) full
        ∙ ap
            (λ k.
              scan_names (length slots)
                ((header ++ length slots ∷ []) ++ (encode_slots slots ++ rest)) k [])
            (sym start)
        ∙ scan_slots slots (header ++ length slots ∷ []) rest [] h)
