-- ===== src/Snmp/RoundTrip.antt =====
-- The values of a well-formed response reach the caller.
use ipscry.Common.{
  ℕ, zero, suc, ◌+◌, ◌%◌, ◌^◌, ◌≤◌, ◌<◌, bit_or, ◌≡◌, refl, sym, ap, ◌∙◌, inl, inr, some, List, [],
  ◌∷◌, ◌++◌, append-nil, arith, ◌==◌, Bool-cases, length, length-append, Go, done, ◌>>=◌, Bytes,
}
use ipscry.Common.Text.{index}
use ipscry.Ber.{Tlv, read_tlv, asn1_len, asn1_tlv, asn1_int, keep_positive, big_endian, int_bytes}
use ipscry.Ber.Digits.{digits, big_endian-digits, length-digits}
use ipscry.Ber.RoundTrip.{read_tlv-asn1_tlv}
use ipscry.Sanitize.{sanitize_one_line}
use ipscry.Snmp.{
  Vars, hex_encode, add_value, add_varbind, walk_step, walk, descend, parse_snmp_varbinds,
}

-- A response of an agent: a varbind SEQUENCE { OID, OCTET STRING } for each pair.
abbrev pub bindings : List (Bytes × Bytes) → Bytes
bindings [] = []
bindings ((oid, value) ∷ vars) =
    asn1_tlv 0x30 (asn1_tlv 0x06 oid ++ asn1_tlv 0x04 value) ++ bindings vars

abbrev pub response : ℕ → Bytes → List (Bytes × Bytes) → Bytes
response id community vars = asn1_tlv 0x30 (
    asn1_int 1
    ++ (asn1_tlv 0x04 community
        ++ asn1_tlv 0xa2
            (asn1_int id ++ (asn1_int 0 ++ (asn1_int 0 ++ asn1_tlv 0x30 (bindings vars))))))

-- What the map holds then, the last pair first.
abbrev pub stored : Vars → List (Bytes × Bytes) → Vars
stored out [] = out
stored out ((oid, value) ∷ vars) = stored ((hex_encode oid, sanitize_one_line value) ∷ out) vars

length-asn1_tlv : (tag : ℕ) (c : Bytes) → 2 + length c ≤ length (asn1_tlv tag c)
unfolding asn1_tlv asn1_len
length-asn1_tlv tag c = ground (
  arith,
  length-append {0}
      (bit_or 0x80 (length (big_endian int_bytes (length c) []) % 256)
        ∷ big_endian int_bytes (length c) [])
      c,
)

descend-asn1_tlv :
    (tag : ℕ) (c rest : Bytes)
    → length c < 2 ^ 32
    → (next : Tlv → Go Vars)
    → descend (asn1_tlv tag c ++ rest) next ≡ next (record { tag = tag; content = c; rest = rest })
unfolding descend
descend-asn1_tlv tag c rest h next = rw (read_tlv-asn1_tlv tag c rest h)

length-keep_positive : (b : Bytes) → length (keep_positive b) ≤ length b + 1
unfolding keep_positive
length-keep_positive [] = omega arith
length-keep_positive (x ∷ b) = ground arith

-- An integer is a TLV of a few bytes.
asn1_int-asn1_tlv :
    (v : ℕ) → v < 2 ^ 31 → (c : Bytes) × (asn1_int v ≡ asn1_tlv 0x02 c) × (length c ≤ 5)
unfolding asn1_int
asn1_int-asn1_tlv v h = elim (Bool-cases (v == 0)) [
  | inl e ↦ (0 ∷ [], rw e, omega arith)
  | inr e ↦ (
    keep_positive (big_endian int_bytes v []),
    rw e,
    omega (
      arith,
      length-keep_positive (big_endian int_bytes v []),
      ap (length {0}) (big_endian-digits int_bytes v [] ∙ append-nil (digits int_bytes v)),
      length-digits int_bytes v 4 (omega arith),
    ),
  )
]

descend-asn1_int :
    (v : ℕ) (rest : Bytes)
    → v < 2 ^ 31
    → (c : Bytes) × ((next : Tlv → Go Vars)
        → descend (asn1_int v ++ rest) next
          ≡ next (record { tag = 0x02; content = c; rest = rest }))
descend-asn1_int v rest h =
    let (c, written, small) = asn1_int-asn1_tlv v h in
    (c, λ next. rw written (descend-asn1_tlv 0x02 c rest (omega arith) next))

-- One round on a varbind.
walk_binding :
    (fuel : ℕ) (oid value rest : Bytes) (out : Vars)
    → length (asn1_tlv 0x06 oid ++ asn1_tlv 0x04 value) < 2 ^ 32
    → walk (suc fuel) (asn1_tlv 0x30 (asn1_tlv 0x06 oid ++ asn1_tlv 0x04 value) ++ rest) out
      ≡ walk fuel rest ((hex_encode oid, sanitize_one_line value) ∷ out)
walk_binding fuel oid value rest out h =
    let inner = asn1_tlv 0x06 oid ++ asn1_tlv 0x04 value in
    let sizes = length-append {0} (asn1_tlv 0x06 oid) (asn1_tlv 0x04 value) in
    let oid_size = length-asn1_tlv 0x06 oid in
    let value_size = length-asn1_tlv 0x04 value in
    let first : walk (suc fuel) (asn1_tlv 0x30 inner ++ rest) out
        ≡ (read_tlv (asn1_tlv 0x30 inner ++ rest) >>= walk_step (walk fuel) out) =
      unfold walk asn1_tlv in refl in
    let last : read_tlv (asn1_tlv 0x04 value)
        ≡ done (some (record { tag = 0x04; content = value; rest = [] })) =
      ap read_tlv (sym (append-nil (asn1_tlv 0x04 value)))
      ∙ read_tlv-asn1_tlv 0x04 value [] (omega arith) in
    first
    ∙ ap (λ m. m >>= walk_step (walk fuel) out) (read_tlv-asn1_tlv 0x30 inner rest h)
    ∙ unfold walk_step add_varbind add_value in
      rw (read_tlv-asn1_tlv 0x06 oid (asn1_tlv 0x04 value) (omega arith), last)

walk-bindings :
    (vars : List (Bytes × Bytes)) (fuel : ℕ) (out : Vars)
    → length (bindings vars) ≤ fuel
    → length (bindings vars) < 2 ^ 32
    → walk fuel (bindings vars) out ≡ done (stored out vars)
walk-bindings [] fuel out f h = unfold walk in refl
walk-bindings ((oid, value) ∷ vars) zero out f h =
    let inner = asn1_tlv 0x06 oid ++ asn1_tlv 0x04 value in
    absurd (
      omega (
        arith,
        length-append {0} (asn1_tlv 0x30 inner) (bindings vars),
        length-asn1_tlv 0x30 inner,
      ))
walk-bindings ((oid, value) ∷ vars) (suc fuel) out f h =
    let inner = asn1_tlv 0x06 oid ++ asn1_tlv 0x04 value in
    let sizes = length-append {0} (asn1_tlv 0x30 inner) (bindings vars) in
    let size = length-asn1_tlv 0x30 inner in
    walk_binding fuel oid value (bindings vars) out (omega arith)
    ∙ walk-bindings vars fuel ((hex_encode oid, sanitize_one_line value) ∷ out) (omega arith)
        (omega arith)

-- The parts of the response, from the inside out.
abbrev pdu_body : ℕ → List (Bytes × Bytes) → Bytes
pdu_body id vars = asn1_int id ++ (asn1_int 0 ++ (asn1_int 0 ++ asn1_tlv 0x30 (bindings vars)))

abbrev message : ℕ → Bytes → List (Bytes × Bytes) → Bytes
message id community vars =
    asn1_int 1 ++ (asn1_tlv 0x04 community ++ asn1_tlv 0xa2 (pdu_body id vars))

-- Each part is as long as what it holds.
part_sizes :
    (id : ℕ) (community : Bytes) (vars : List (Bytes × Bytes))
    → (length (message id community vars) ≤ length (response id community vars))
      × (length community + length (pdu_body id vars) ≤ length (message id community vars))
      × (length (bindings vars) ≤ length (pdu_body id vars))
part_sizes id community vars =
    let list = asn1_tlv 0x30 (bindings vars) in
    let pdu = asn1_tlv 0xa2 (pdu_body id vars) in
    let a = length-append {0} (asn1_int 0) list in
    let b = length-append {0} (asn1_int 0) (asn1_int 0 ++ list) in
    let c = length-append {0} (asn1_int id) (asn1_int 0 ++ (asn1_int 0 ++ list)) in
    let d = length-append {0} (asn1_tlv 0x04 community) pdu in
    let e = length-append {0} (asn1_int 1) (asn1_tlv 0x04 community ++ pdu) in
    let f = length-asn1_tlv 0x30 (bindings vars) in
    let g = length-asn1_tlv 0xa2 (pdu_body id vars) in
    let h = length-asn1_tlv 0x04 community in
    let k = length-asn1_tlv 0x30 (message id community vars) in
    (omega arith, omega arith, omega arith)

descend_whole :
    (tag : ℕ) (c : Bytes)
    → length c < 2 ^ 32
    → (next : Tlv → Go Vars)
    → descend (asn1_tlv tag c) next ≡ next (record { tag = tag; content = c; rest = [] })
descend_whole tag c h next =
    ap (λ b. descend b next) (sym (append-nil (asn1_tlv tag c))) ∙ descend-asn1_tlv tag c [] h next

-- A response in the form that an agent sends, with a string for each OID, is read in full: the map
-- holds the sanitized value of each OID, a later one before an earlier one.
pub parse_snmp_varbinds-response :
    (id : ℕ) (community : Bytes) (vars : List (Bytes × Bytes))
    → id < 2 ^ 31
    → length (response id community vars) < 2 ^ 32
    → parse_snmp_varbinds (response id community vars) ≡ done (stored [] vars)
unfolding parse_snmp_varbinds
parse_snmp_varbinds-response id community vars hid h =
    let (s1, s2, s3) = part_sizes id community vars in
    let list = asn1_tlv 0x30 (bindings vars) in
    let (_, version) =
      descend-asn1_int 1 (asn1_tlv 0x04 community ++ asn1_tlv 0xa2 (pdu_body id vars))
        (omega arith) in
    let (_, request) = descend-asn1_int id (asn1_int 0 ++ (asn1_int 0 ++ list)) hid in
    let (_, status) = descend-asn1_int 0 (asn1_int 0 ++ list) (omega arith) in
    let (_, index) = descend-asn1_int 0 list (omega arith) in
    descend_whole 0x30 (message id community vars) (omega arith) _
    ∙ version _
    ∙ descend-asn1_tlv 0x04 community (asn1_tlv 0xa2 (pdu_body id vars)) (omega arith) _
    ∙ descend_whole 0xa2 (pdu_body id vars) (omega arith) _
    ∙ request _
    ∙ status _
    ∙ index _
    ∙ descend_whole 0x30 (bindings vars) (omega arith) _
    ∙ walk-bindings vars (length (response id community vars)) [] (omega arith) (omega arith)
