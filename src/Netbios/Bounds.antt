-- ===== src/Netbios/Bounds.antt =====
-- parseNBNSName on any answer.
use ipscry.Common.{
  ℕ, zero, suc, ◌+◌, ◌-◌, ◌<◌, ◌≡◌, inl, inr, ◌||◌, [], arith, ltb, leb, ◌==◌, ltb→le, Bool-cases,
  length, take, drop, length-take, length-drop, Go, Ends, Ends-bind, at-lt, slice-le, Bytes,
}
use ipscry.Dns.{uint16}
use ipscry.Dns.Bounds.{Anything, uint16-Ends}
use ipscry.Netbios.{NbnsEntry, read_entry, use_entry, scan_names, parse_nbns_name, rdata_start}

read_entry-Ends : (entry : Bytes) → length entry ≡ 18 → Ends Anything (read_entry entry)
unfolding read_entry
read_entry-Ends entry h =
    let (suffix, e) = at-lt entry 15 (omega arith) in
    rw (slice-le entry 0 15 (omega arith) (omega arith), e)
      (Ends-bind Anything Anything (uint16 entry 16) _ (uint16-Ends entry 16 (omega arith))
        (λ flags _. tt))

use_entry-Ends :
    (more : Bytes → Go Bytes) (fallback : Bytes) (e : NbnsEntry)
    → ((f : Bytes) → Ends Anything (more f))
    → Ends Anything (use_entry more fallback e)
unfolding use_entry
use_entry-Ends more fallback e h = elim (Bool-cases (e.group || length e.name == 0)) [
  | inl a ↦ rw (a) (h fallback)
  | inr a ↦ elim (Bool-cases (e.suffix == 0)) [ inl b ↦ rw (a, b) tt | inr b ↦ rw (a, b) (h _) ]
]

scan_names-Ends :
    (count : ℕ) (resp : Bytes) (offset : ℕ) (fallback : Bytes)
    → Ends Anything (scan_names count resp offset fallback)
unfolding scan_names
scan_names-Ends zero resp offset fallback = tt
scan_names-Ends (suc count) resp offset fallback =
    elim (Bool-cases (ltb (length resp) (offset + 18))) [
      | inl e ↦ rw (e) tt
      | inr e ↦
          let fits = ltb→le _ _ e in
          let size : length (take (offset + 18 - offset) (drop offset resp)) ≡ 18 = omega (
            arith,
            length-take {0} (offset + 18 - offset) (drop offset resp),
            length-drop {0} offset resp,
          ) in
          rw (e, slice-le resp offset (offset + 18) (omega arith) fits)
            (Ends-bind Anything Anything (read_entry _) _ (read_entry-Ends _ size) (λ x _.
              use_entry-Ends (scan_names count resp (offset + 18)) fallback x
                (scan_names-Ends count resp (offset + 18))))
    ]

-- parseNBNSName returns on every answer, without an index out of bounds.
pub parse_nbns_name-Ends : (resp : Bytes) → Ends Anything (parse_nbns_name resp)
unfolding parse_nbns_name
parse_nbns_name-Ends resp = elim (Bool-cases (leb (length resp) rdata_start)) [
  | inl e ↦ rw (e) tt
  | inr e ↦
      let long : rdata_start < length resp = ground arith in
      let (count, c) = at-lt resp rdata_start long in
      rw (e, c)
        (Ends-bind Anything Anything (uint16 resp 6) _ (uint16-Ends resp 6 (omega arith))
          (λ answers _. elim (Bool-cases (answers == 0)) [
            | inl z ↦ rw (z) tt
            | inr z ↦ rw (z) (scan_names-Ends count resp (rdata_start + 1) [])
          ]))
]
