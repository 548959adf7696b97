-- ===== src/Dns/Pointers.antt =====
-- Compression pointers: decodeDNSName follows one without looking where it has been.
use ipscry.Common.{
  ℕ, zero, suc, ◌+◌, ◌*◌, ◌<◌, bit_and, ◌≡◌, refl, inl, inr, true, false, List, [], ◌∷◌, ◌++◌,
  arith, ltb, leb, ◌==◌, le→ltb, Bool-cases, length, get_or, done, stuck, at, Bytes,
}
use ipscry.Dns.{uint16, decode_loop, decode_dns_name, skip_questions, parse_dns_packet}

-- The two bytes at `o` are a compression pointer to `o` itself.
pub record IsLoop (msg : Bytes) (o : ℕ) : Type 0 where
  pub hi : ℕ
  pub lo : ℕ
  pub hi_read : at msg o ≡ done hi
  pub lo_read : at msg (o + 1) ≡ done lo
  pub is_pointer : bit_and hi 0xc0 ≡ 0xc0
  pub target : bit_and (hi * 256 + lo) 0x3fff ≡ o
  pub inside : o + 1 < length msg

pub decode_loop-IsLoop :
    (fuel : ℕ) (msg : Bytes) (o : ℕ) (labels : List Bytes)
    → IsLoop msg o
    → decode_loop fuel msg o [] labels ≡ stuck
unfolding decode_loop uint16
decode_loop-IsLoop zero msg o labels p = refl
decode_loop-IsLoop (suc fuel) msg o labels p =
    let here : ltb o (length msg) ≡ true = let i = p.inside in ground arith in
    let room : leb (length msg) (o + 1) ≡ false = let i = p.inside in ground arith in
    let set : (p.hi == 0) ≡ false = elim (Bool-cases (p.hi == 0)) [
      | inl z ↦
          let e : p.hi ≡ 0 = ground arith in
          let bad : bit_and 0 0xc0 ≡ 0xc0 = rw e at p.is_pointer in cc
      | inr ne ↦ ne
    ] in
    rw (
      here,
      p.hi_read,
      set,
      p.is_pointer,
      room,
      p.lo_read,
      p.target,
      decode_loop-IsLoop fuel msg o [] p,
    )

skip_questions-IsLoop :
    (count fuel : ℕ) (msg : Bytes)
    → 0 < count
    → IsLoop msg 12
    → skip_questions count fuel msg 12 ≡ stuck
unfolding skip_questions decode_dns_name
skip_questions-IsLoop zero fuel msg h p = absurd (omega arith)
skip_questions-IsLoop (suc count) fuel msg h p = rw (decode_loop-IsLoop fuel msg 12 [] p)

-- `parseDNSPacket` does not return on a packet that asks at least one question and has for its first
-- name, behind the header of 12 bytes, a pointer to that name: no number of rounds is enough.
pub parse_dns_packet_diverges :
    (fuel : ℕ) (header rest : Bytes)
    → length header ≡ 12
    → 0 < get_or header 4 0 * 256 + get_or header 5 0
    → parse_dns_packet fuel (header ++ (0xc0 ∷ 0x0c ∷ rest)) ≡ stuck
unfolding parse_dns_packet uint16 at
parse_dns_packet_diverges fuel (a ∷ b ∷ c ∷ d ∷ e ∷ f ∷ g ∷ h ∷ i ∷ j ∷ k ∷ l ∷ []) rest size ask =
    let msg = a ∷ b ∷ c ∷ d ∷ e ∷ f ∷ g ∷ h ∷ i ∷ j ∷ k ∷ l ∷ 0xc0 ∷ 0x0c ∷ rest in
    let loop : IsLoop msg 12 = record {
      hi = 0xc0;
      lo = 0x0c;
      hi_read = refl;
      lo_read = refl;
      is_pointer = refl;
      target = refl;
      inside = omega arith;
    } in
    rw (le→ltb (length msg) 12 (omega arith), skip_questions-IsLoop (e * 256 + f) fuel msg ask loop)
parse_dns_packet_diverges fuel _ rest size ask = absurd (omega arith)
