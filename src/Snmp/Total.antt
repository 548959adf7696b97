-- ===== src/Snmp/Total.antt =====
-- parseSNMPVarbinds returns on every response.
use ipscry.Common.{
  ℕ, zero, suc, ◌+◌, ◌≤◌, inl, inr, Option, none, some, [], ◌∷◌, ◌++◌, arith, ◌==◌, Bool-cases,
  length, length-append, Go, done, Ends, Ends-bind, Bytes,
}
use ipscry.Ber.{Tlv, read_tlv}
use ipscry.Ber.Total.{IsCut, read_tlv_total}
use ipscry.Dns.Bounds.{Anything}
use ipscry.Snmp.{Vars, add_varbind, walk_step, walk, descend, parse_snmp_varbinds}

-- What is read is shorter than what it is read from.
IsCut-shorter :
    (b : Bytes) (t : Tlv) → IsCut b (some t) → 2 + (length t.content + length t.rest) ≤ length b
IsCut-shorter b t (header, e, two) = rw e (
    omega
      (arith, length-append {0} header (t.content ++ t.rest), length-append {0} t.content t.rest))

add_varbind-Ends : (out : Vars) (found : Option Tlv) → Ends Anything (add_varbind out found)
unfolding add_varbind
add_varbind-Ends out none = tt
add_varbind-Ends out (some oid) = elim (Bool-cases (oid.tag == 0x06)) [
  | inr e ↦ rw e tt
  | inl e ↦ rw e (
      Ends-bind (IsCut oid.rest) Anything (read_tlv oid.rest) _ (read_tlv_total oid.rest) λ v _. tt)
]

walk_step-Ends :
    (n : ℕ) (more : Bytes → Vars → Go Vars) (out : Vars) (found : Option Tlv) (b : Bytes)
    → length b ≤ suc n
    → ((rest : Bytes) (o : Vars) → length rest ≤ n → Ends Anything (more rest o))
    → IsCut b found
    → Ends Anything (walk_step more out found)
unfolding walk_step
walk_step-Ends n more out none b h k c = tt
walk_step-Ends n more out (some vb) b h k c =
    let shorter = IsCut-shorter b vb c in
    Ends-bind (IsCut vb.content) Anything (read_tlv vb.content) _ (read_tlv_total vb.content)
      λ oid _.
        Ends-bind Anything Anything (add_varbind out oid) _ (add_varbind-Ends out oid)
          λ o _. k vb.rest o (omega arith)

walk-Ends :
    (fuel : ℕ) (list : Bytes) (out : Vars) → length list ≤ fuel → Ends Anything (walk fuel list out)
unfolding walk
walk-Ends fuel [] out h = tt
walk-Ends zero (x ∷ list) out h = absurd (omega arith)
walk-Ends (suc fuel) (x ∷ list) out h =
    Ends-bind (IsCut (x ∷ list)) Anything (read_tlv (x ∷ list)) _ (read_tlv_total (x ∷ list))
      λ found c.
        walk_step-Ends fuel (walk fuel) out found (x ∷ list) h (λ r o. walk-Ends fuel r o) c

descend-Ends :
    (n : ℕ) (b : Bytes) (next : Tlv → Go Vars)
    → length b ≤ n
    → ((t : Tlv) → length t.content ≤ n → length t.rest ≤ n → Ends Anything (next t))
    → Ends Anything (descend b next)
unfolding descend
descend-Ends n b next h k = Ends-bind (IsCut b) Anything (read_tlv b) _ (read_tlv_total b) go
  where
    go :
        (found : Option Tlv)
        → IsCut b found
        → Ends Anything (elim found [ none ↦ done [] | some t ↦ next t ])
    go none c = tt
    go (some t) c = let shorter = IsCut-shorter b t c in k t (omega arith) (omega arith)

-- On any response, cut short or hostile, `parseSNMPVarbinds` returns: it never indexes out of bounds,
-- and its loop ends within as many rounds as the response has bytes.
pub parse_snmp_varbinds-Ends : (resp : Bytes) → Ends Anything (parse_snmp_varbinds resp)
unfolding parse_snmp_varbinds
parse_snmp_varbinds-Ends resp =
    let n = length resp in
    descend-Ends n resp _ (omega arith) λ message c r.
      descend-Ends n message.content _ c λ version c r.
        descend-Ends n version.rest _ r λ community c r.
          descend-Ends n community.rest _ r λ pdu c r.
            descend-Ends n pdu.content _ c λ request_id c r.
              descend-Ends n request_id.rest _ r λ error_status c r.
                descend-Ends n error_status.rest _ r λ error_index c r.
                  descend-Ends n error_index.rest _ r λ list c r. walk-Ends n list.content [] c
