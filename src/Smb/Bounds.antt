-- ===== src/Smb/Bounds.antt =====
-- parseNTLMChallenge on any response.
use ipscry.Common.{
  ℕ, zero, suc, ◌+◌, ◌-◌, ◌≤◌, ◌<◌, inl, inr, not, ◌||◌, [], arith, ltb, ◌==◌, Bool-cases,
  Option-cases, length, take, drop, Go, Ends, Ends-bind, at-lt, slice-le, Bytes,
}
use ipscry.Common.Text.{index}
use ipscry.Common.Index.{index-bound}
use ipscry.Dns.Bounds.{Anything}
use ipscry.Smb.{
  le_uint16, le_uint32, use_attribute, scan_attributes, signature, read_target_info,
  parse_ntlm_challenge,
}

le_uint16-Ends : (b : Bytes) (i : ℕ) → i + 2 ≤ length b → Ends Anything (le_uint16 b i)
unfolding le_uint16
le_uint16-Ends b i h =
    let (lo, e) = at-lt b i (omega arith) in
    let (hi, f) = at-lt b (i + 1) (omega arith) in rw (e, f) tt

le_uint32-Ends : (b : Bytes) (i : ℕ) → i + 4 ≤ length b → Ends Anything (le_uint32 b i)
unfolding le_uint32
le_uint32-Ends b i h =
    Ends-bind Anything Anything (le_uint16 b i) _ (le_uint16-Ends b i (omega arith)) (λ lo _.
      Ends-bind Anything Anything (le_uint16 b (i + 2)) _ (le_uint16-Ends b (i + 2) (omega arith))
        (λ hi _. tt))

use_attribute-Ends :
    (more : Bytes → Bytes → Go Bytes) (id : ℕ) (value nb dns : Bytes)
    → ((n d : Bytes) → Ends Anything (more n d))
    → Ends Anything (use_attribute more id value nb dns)
unfolding use_attribute
use_attribute-Ends more id value nb dns h = elim (Bool-cases (id == 1)) [
  | inl a ↦ rw (a) (h _ _)
  | inr a ↦ elim (Bool-cases (id == 3)) [ inl b ↦ rw (a, b) (h _ _) | inr b ↦ rw (a, b) (h _ _) ]
]

-- A round takes at least four bytes, so their number is fuel enough.
scan_attributes-Ends :
    (fuel : ℕ) (info : Bytes) (off : ℕ) (nb dns : Bytes)
    → length info < fuel + off
    → off ≤ length info
    → Ends Anything (scan_attributes fuel info off nb dns)
unfolding scan_attributes
scan_attributes-Ends zero info off nb dns h k = omega arith
scan_attributes-Ends (suc fuel) info off nb dns h k =
    elim (Bool-cases (ltb (length info) (off + 4))) [
      | inl e ↦ rw (e) tt
      | inr e ↦ rw (e) (
          Ends-bind Anything Anything (le_uint16 info off) _
            (le_uint16-Ends info off (ground arith))
            (λ id _.
              Ends-bind Anything Anything (le_uint16 info (off + 2)) _
                (le_uint16-Ends info (off + 2) (ground arith))
                (λ len _. elim (Bool-cases (id == 0 || ltb (length info) (off + 4 + len))) [
                  | inl z ↦ rw (z) tt
                  | inr z ↦ rw (z) (
                      rw (slice-le info (off + 4) (off + 4 + len) (omega arith) (ground arith)) (
                        use_attribute-Ends (scan_attributes fuel info (off + 4 + len)) id
                          (take (off + 4 + len - (off + 4)) (drop (off + 4) info)) nb dns
                          (λ n d.
                            scan_attributes-Ends fuel info (off + 4 + len) n d (omega arith)
                              (ground arith))))
                ])))
    ]

read_target_info-Ends : (msg : Bytes) → Ends Anything (read_target_info msg)
unfolding read_target_info
read_target_info-Ends msg = elim (Bool-cases (ltb (length msg) 48)) [
  | inl e ↦ rw (e) tt
  | inr e ↦ rw (e) (
      Ends-bind Anything Anything (le_uint32 msg 8) _ (le_uint32-Ends msg 8 (ground arith))
        (λ kind _. elim (Bool-cases (not (kind == 2))) [
          | inl f ↦ rw (f) tt
          | inr f ↦ rw (f) (
              Ends-bind Anything Anything (le_uint16 msg 40) _
                (le_uint16-Ends msg 40 (ground arith))
                (λ len _.
                  Ends-bind Anything Anything (le_uint32 msg 44) _
                    (le_uint32-Ends msg 44 (ground arith))
                    (λ off _. elim (Bool-cases (len == 0 || ltb (length msg) (off + len))) [
                      | inl z ↦ rw (z) tt
                      | inr z ↦ rw (z) (
                          rw (slice-le msg off (off + len) (omega arith) (ground arith)) (
                            scan_attributes-Ends
                              (suc (length (take (off + len - off) (drop off msg))))
                              (take (off + len - off) (drop off msg)) 0 [] [] (omega arith)
                              (omega arith)))
                    ])))
        ]))
]

-- parseNTLMChallenge returns on every response, without an index out of bounds, and its loop ends within as
-- many rounds as the target info has bytes, and one.
pub parse_ntlm_challenge-Ends : (resp : Bytes) → Ends Anything (parse_ntlm_challenge resp)
unfolding parse_ntlm_challenge
parse_ntlm_challenge-Ends resp = elim (Option-cases (index signature resp)) [
  | inl e ↦ rw (e, parse_ntlm_challenge) tt
  | inr (idx, e) ↦
      rw (e, parse_ntlm_challenge)
        (rw
          (slice-le resp idx (length resp) (omega (arith, index-bound signature resp idx e))
            (omega arith))
          (read_target_info-Ends (take (length resp - idx) (drop idx resp))))
]
