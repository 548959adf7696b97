-- ===== src/Dns/Bounds.antt =====
-- The DNS reader on any packet: it never reads out of bounds, and its records lie in the packet.
use ipscry.Common.{
  ℕ, zero, suc, ◌+◌, ◌-◌, ◌≤◌, bit_and, ◌≡◌, sym, ap, inl, inr, Option, none, some, List, [], ◌∷◌,
  arith, ltb, leb, ◌==◌, ltb→lt, ltb→le, Bool-cases, length, take, drop, All, length-take,
  length-drop, All-append, Go, Ends, Safe, Ends-bind, Safe-bind, Ends-Safe, at-lt, slice-le, Bytes,
}
use ipscry.Dns.{
  DnsRecord, DnsPacket, Decoded, is_visited, uint16, decode_pointer, decode_label, decode_length,
  decode_step, decode_loop, decode_dns_name, skip_questions, read_record, add_record, read_records,
  parse_body, parse_dns_packet,
}

abbrev pub Anything {ℓ} : {A : Type ℓ} → A → Type 0
Anything a = Unit

pub uint16-Ends : (msg : Bytes) (i : ℕ) → i + 2 ≤ length msg → Ends Anything (uint16 msg i)
unfolding uint16
uint16-Ends msg i h =
    let (hi, e) = at-lt msg i (omega arith) in
    let (lo, f) = at-lt msg (i + 1) (omega arith) in rw (e, f) tt

-- The calls that a round makes do not panic.
abbrev NoPanic : (ℕ → List ℕ → List Bytes → Decoded) → Type 0
NoPanic loop = (o : ℕ) (v : List ℕ) (l : List Bytes) → Safe Anything (loop o v l)

decode_pointer-Safe :
    (again : ℕ → Decoded) (msg : Bytes) (offset : ℕ) (labels : List Bytes)
    → ((o : ℕ) → Safe Anything (again o))
    → Safe Anything (decode_pointer again msg offset labels)
unfolding decode_pointer
decode_pointer-Safe again msg offset labels h = elim (Bool-cases (leb (length msg) (offset + 1))) [
  | inl e ↦ rw e tt
  | inr e ↦ rw e (
      Safe-bind Anything Anything (uint16 msg offset) _
        (Ends-Safe Anything _ (uint16-Ends msg offset (ground arith)))
        (λ word _.
          Safe-bind Anything Anything (again (bit_and word 0x3fff)) _ (h (bit_and word 0x3fff))
            (λ p _. tt)))
]

decode_label-Safe :
    (more : ℕ → List Bytes → Decoded) (msg : Bytes) (start len : ℕ) (labels : List Bytes)
    → ((o : ℕ) (l : List Bytes) → Safe Anything (more o l))
    → Safe Anything (decode_label more msg start len labels)
unfolding decode_label
decode_label-Safe more msg start len labels h = elim (Bool-cases (ltb (length msg) (start + len))) [
  | inl e ↦ rw e tt
  | inr e ↦ rw (e, slice-le msg start (start + len) (omega arith) (ltb→le _ _ e)) (h _ _)
]

decode_length-Safe :
    (loop : ℕ → List ℕ → List Bytes → Decoded) (msg : Bytes) (offset : ℕ) (visited : List ℕ)
    (labels : List Bytes) (len : ℕ)
    → NoPanic loop
    → Safe Anything (decode_length loop msg offset visited labels len)
unfolding decode_length
decode_length-Safe loop msg offset visited labels len h = elim (Bool-cases (len == 0)) [
  | inl root ↦ rw root tt
  | inr other ↦ elim (Bool-cases (bit_and len 0xc0 == 0xc0)) [
    | inl pointer ↦
        rw (other, pointer)
          (decode_pointer-Safe (λ target. loop target [] []) msg offset labels (λ o. h o [] []))
    | inr label ↦
        rw (other, label)
          (decode_label-Safe (λ next. loop next (offset ∷ visited)) msg (offset + 1) len labels
            (λ o. h o (offset ∷ visited)))
  ]
]

decode_step-Safe :
    (loop : ℕ → List ℕ → List Bytes → Decoded) (msg : Bytes) (offset : ℕ) (visited : List ℕ)
    (labels : List Bytes)
    → NoPanic loop
    → Safe Anything (decode_step loop msg offset visited labels)
unfolding decode_step
decode_step-Safe loop msg offset visited labels h = elim (Bool-cases (ltb offset (length msg))) [
  | inr e ↦ rw e tt
  | inl e ↦ elim (Bool-cases (is_visited visited offset)) [
    | inl seen ↦ rw (e, seen) tt
    | inr fresh ↦
        let (len, read) = at-lt msg offset (ltb→lt _ _ e) in
        rw (e, fresh, read) (decode_length-Safe loop msg offset visited labels len h)
  ]
]

decode_loop-Safe :
    (fuel : ℕ) (msg : Bytes) (offset : ℕ) (visited : List ℕ) (labels : List Bytes)
    → Safe Anything (decode_loop fuel msg offset visited labels)
unfolding decode_loop
decode_loop-Safe zero msg offset visited labels = tt
decode_loop-Safe (suc fuel) msg offset visited labels =
    decode_step-Safe (decode_loop fuel msg) msg offset visited labels (decode_loop-Safe fuel msg)

-- The data of a record is the part of the packet at its offset.
abbrev pub IsWithin : Bytes → DnsRecord → Type 0
IsWithin msg r =
    (r.rdata ≡ take (length r.rdata) (drop r.rdata_offset msg))
    × (r.rdata_offset + length r.rdata ≤ length msg)

abbrev pub IsFound : Bytes → Option DnsRecord → Type 0
IsFound msg none = Unit
IsFound msg (some r) = IsWithin msg r

read_record-Ends : (msg name : Bytes) (next : ℕ) → Ends (IsFound msg) (read_record msg name next)
unfolding read_record
read_record-Ends msg name next = elim (Bool-cases (ltb (length msg) (next + 10))) [
  | inl e ↦ rw e tt
  | inr e ↦
      let room : next + 10 ≤ length msg = ltb→le _ _ e in
      rw e (
        Ends-bind Anything (IsFound msg) _ _ (uint16-Ends msg next (omega arith)) λ rtype _.
          Ends-bind Anything (IsFound msg) _ _ (uint16-Ends msg (next + 2) (omega arith)) λ class _.
            Ends-bind Anything (IsFound msg) _ _ (uint16-Ends msg (next + 4) (omega arith))
              λ ttl_hi _.
                Ends-bind Anything (IsFound msg) _ _ (uint16-Ends msg (next + 6) (omega arith))
                  λ ttl_lo _.
                    Ends-bind Anything (IsFound msg) _ _ (uint16-Ends msg (next + 8) (omega arith))
                      λ rdlen _. elim (Bool-cases (ltb (length msg) (next + 10 + rdlen))) [
                        | inl over ↦ rw over tt
                        | inr fits ↦
                            rw
                              (
                                fits,
                                slice-le msg (next + 10) (next + 10 + rdlen) (omega arith)
                                    (ltb→le _ _ fits),
                              )
                              (found rdlen (ltb→le _ _ fits))
                      ])
]
  where
    found :
        (rdlen : ℕ)
        → next + 10 + rdlen ≤ length msg
        → (take (next + 10 + rdlen - (next + 10)) (drop (next + 10) msg)
            ≡ take
                (length (take (next + 10 + rdlen - (next + 10)) (drop (next + 10) msg)))
                (drop (next + 10) msg))
          × (next + 10 + length (take (next + 10 + rdlen - (next + 10)) (drop (next + 10) msg))
              ≤ length msg)
    found rdlen h =
        let k = next + 10 + rdlen - (next + 10) in
        let size : length (take k (drop (next + 10) msg)) ≡ k =
          omega
            (arith, length-take {0} k (drop (next + 10) msg), length-drop {0} (next + 10) msg) in
        (ap (λ n. take n (drop (next + 10) msg)) (sym size), omega arith)

add_record-Safe :
    (msg : Bytes) (more : ℕ → List DnsRecord → Go (List DnsRecord)) (out : List DnsRecord)
    (found : Option DnsRecord)
    → ((o : ℕ) (l : List DnsRecord) → All (IsWithin msg) l → Safe (All (IsWithin msg)) (more o l))
    → All (IsWithin msg) out
    → IsFound msg found
    → Safe (All (IsWithin msg)) (add_record more out found)
unfolding add_record
add_record-Safe msg more out none k h w = h
add_record-Safe msg more out (some r) k h w =
    k _ _ (All-append (IsWithin msg) out (r ∷ []) h (w, tt))

read_records-Safe :
    (count fuel : ℕ) (msg : Bytes) (offset : ℕ) (out : List DnsRecord)
    → All (IsWithin msg) out
    → Safe (All (IsWithin msg)) (read_records count fuel msg offset out)
unfolding read_records decode_dns_name
read_records-Safe zero fuel msg offset out h = h
read_records-Safe (suc count) fuel msg offset out h =
    Safe-bind Anything (All (IsWithin msg)) (decode_loop fuel msg offset [] []) _
      (decode_loop-Safe fuel msg offset [] [])
      λ p _.
        Safe-bind (IsFound msg) (All (IsWithin msg)) (read_record msg p.0 p.1) _
          (Ends-Safe (IsFound msg) _ (read_record-Ends msg p.0 p.1))
          λ found w.
            add_record-Safe msg (read_records count fuel msg) out found
              (λ o l. read_records-Safe count fuel msg o l) h w

skip_questions-Safe :
    (count fuel : ℕ) (msg : Bytes) (offset : ℕ)
    → Safe Anything (skip_questions count fuel msg offset)
unfolding skip_questions decode_dns_name
skip_questions-Safe zero fuel msg offset = tt
skip_questions-Safe (suc count) fuel msg offset =
    Safe-bind Anything Anything (decode_loop fuel msg offset [] []) _
      (decode_loop-Safe fuel msg offset [] [])
      λ p _. elim (Bool-cases (ltb (length msg) (p.1 + 4))) [
        | inl over ↦ rw over tt
        | inr fits ↦ rw fits (skip_questions-Safe count fuel msg (p.1 + 4))
      ]

-- The records of a packet, if there is one, lie within the bytes.
abbrev pub IsSound : Bytes → Option DnsPacket → Type 0
IsSound msg none = Unit
IsSound msg (some p) = All (IsWithin msg) p.records

parse_body-Safe :
    (fuel : ℕ) (msg : Bytes) (id flags count : ℕ) (start : Option ℕ)
    → Safe (IsSound msg) (parse_body fuel msg id flags count start)
unfolding parse_body
parse_body-Safe fuel msg id flags count none = tt
parse_body-Safe fuel msg id flags count (some offset) =
    Safe-bind (All (IsWithin msg)) (IsSound msg) (read_records count fuel msg offset []) _
      (read_records-Safe count fuel msg offset [] tt) λ records h. h

-- Whatever the bytes, `parseDNSPacket` never indexes or slices out of bounds, and where it returns
-- a packet, each record's data is the part of the bytes at the record's offset, inside the packet.
pub parse_dns_packet-Safe :
    (fuel : ℕ) (msg : Bytes) → Safe (IsSound msg) (parse_dns_packet fuel msg)
unfolding parse_dns_packet
parse_dns_packet-Safe fuel msg = elim (Bool-cases (ltb (length msg) 12)) [
  | inl short ↦ rw short tt
  | inr long ↦
      let room : 12 ≤ length msg = ltb→le _ _ long in
      let word = λ (i : ℕ) (h : i + 2 ≤ length msg). Ends-Safe Anything _ (uint16-Ends msg i h) in
      rw long (
        Safe-bind Anything (IsSound msg) _ _ (word 0 (omega arith)) λ id _.
          Safe-bind Anything (IsSound msg) _ _ (word 2 (omega arith)) λ flags _.
            Safe-bind Anything (IsSound msg) _ _ (word 4 (omega arith)) λ qd _.
              Safe-bind Anything (IsSound msg) _ _ (word 6 (omega arith)) λ an _.
                Safe-bind Anything (IsSound msg) _ _ (word 8 (omega arith)) λ ns _.
                  Safe-bind Anything (IsSound msg) _ _ (word 10 (omega arith)) λ ar _.
                    Safe-bind Anything (IsSound msg) _ _ (skip_questions-Safe qd fuel msg 12)
                      λ start _. parse_body-Safe fuel msg id flags (an + ns + ar) start)
]
