-- ===== src/Dns/RoundTrip.antt =====
-- A name that encodeDNSName wrote is read back by decodeDNSName.
use ipscry.Common.{
  ℕ, true, inl, inr, Bool-cases, zero, suc, ◌+◌, ◌%◌, ◌≤◌, ◌<◌, bit_and, ◌≡◌, refl, sym, ap, ◌∙◌,
  false, List, [], ◌∷◌, ◌++◌, append-nil, append_assoc, arith, ◌==◌, lt→ltb, le→ltb, length, All,
  length-append, done, slice, at-append, slice-append, Bytes, top_two_bits,
}
use ipscry.Common.Text.{codes, trim_suffix, split, join}
use ipscry.Common.Trim.{trim_space}
use mathlib.Core.Path.{ap₂}
use ipscry.Common.Split.{join-split}
use ipscry.Dns.{encode_labels, encode_dns_name, is_visited, decode_loop, decode_dns_name}

-- A label that is encoded whole.
abbrev pub IsLabel : Bytes → Type 0
IsLabel l = (0 < length l) × (length l ≤ 63)

unseen : (visited : List ℕ) (o : ℕ) → All (λ v. v < o) visited → is_visited visited o ≡ false
unfolding is_visited
unseen [] o h = refl
unseen (v ∷ visited) o (lt, h) = ground (arith, unseen visited o h)

All-lt_mono :
    (visited : List ℕ) (o p : ℕ) → o ≤ p → All (λ v. v < o) visited → All (λ v. v < p) visited
All-lt_mono [] o p le h = tt
All-lt_mono (v ∷ visited) o p le (lt, h) = (omega arith, All-lt_mono visited o p le h)

short_len : (n : ℕ) → 0 < n → n ≤ 63 → ((n == 0) ≡ false) × ((bit_and n 0xc0 == 0xc0) ≡ false)
short_len n pos le = ground (arith, top_two_bits n)

-- One round on a label, with any `tail` behind it.
decode_loop_label :
    (fuel : ℕ) (front l tail : Bytes) (visited : List ℕ) (out : List Bytes)
    → IsLabel l
    → All (λ v. v < length front) visited
    → decode_loop (suc fuel) (front ++ (length l ∷ (l ++ tail))) (length front) visited out
      ≡ decode_loop fuel
          (front ++ (length l ∷ (l ++ tail)))
          (length front + 1 + length l)
          (length front ∷ visited)
          (out ++ l ∷ [])
unfolding decode_loop
decode_loop_label fuel front l tail visited out (pos, le) v =
    let whole = front ++ (length l ∷ (l ++ tail)) in
    let sizes = length-append {0} front (length l ∷ (l ++ tail)) in
    let sizes' = length-append {0} l tail in
    let (other, plain) = short_len (length l) pos le in
    let regroup : (front ++ length l ∷ []) ++ (l ++ tail) ≡ whole =
      append_assoc front (length l ∷ []) (l ++ tail) in
    let start : length (front ++ length l ∷ []) ≡ length front + 1 =
      length-append front (length l ∷ []) in
    let read : slice whole (length front + 1) (length front + 1 + length l) ≡ done l =
      ap (λ w. slice w (length front + 1) (length front + 1 + length l)) (sym regroup)
      ∙ ap (λ k. slice ((front ++ length l ∷ []) ++ (l ++ tail)) k (k + length l)) (sym start)
      ∙ slice-append (front ++ length l ∷ []) l tail in
    rw (
      lt→ltb (length front) (length whole) (omega arith),
      unseen visited (length front) v,
      at-append front (l ++ tail) (length l) (length front) refl,
      other,
      plain,
      le→ltb (length whole) (length front + 1 + length l) (omega arith),
      read,
    )

encode_labels-cons :
    (l : Bytes) (labels : List Bytes)
    → IsLabel l
    → encode_labels (l ∷ labels) ≡ length l ∷ (l ++ encode_labels labels)
unfolding encode_labels
encode_labels-cons l labels (pos, le) =
    let n : length l % 256 ≡ length l = omega arith in rw (le→ltb 63 (length l) le, n)

decode_loop-encode_labels :
    (labels : List Bytes) (fuel : ℕ) (front rest : Bytes) (visited : List ℕ) (out : List Bytes)
    → All IsLabel labels
    → length labels < fuel
    → All (λ v. v < length front) visited
    → decode_loop fuel (front ++ (encode_labels labels ++ rest)) (length front) visited out
      ≡ done (join (codes ".") (out ++ labels), length front + length (encode_labels labels))
decode_loop-encode_labels labels zero front rest visited out h f v = absurd (omega arith)
decode_loop-encode_labels [] (suc fuel) front rest visited out h f v =
    let sizes = length-append {0} front (0 ∷ rest) in
    unfold decode_loop encode_labels in
    rw (
      lt→ltb (length front) (length (front ++ (0 ∷ rest))) (omega arith),
      unseen visited (length front) v,
      at-append front rest 0 (length front) refl,
      append-nil out,
    )
decode_loop-encode_labels (l ∷ labels) (suc fuel) front rest visited out ((pos, le), h) f v =
    let tail = encode_labels labels ++ rest in
    let whole = front ++ (length l ∷ (l ++ tail)) in
    let front' = front ++ (length l ∷ l) in
    let size : length front' ≡ length front + 1 + length l =
      omega (arith, length-append {0} front (length l ∷ l)) in
    let ends : length front' + length (encode_labels labels)
        ≡ length front + suc (length (l ++ encode_labels labels)) =
      omega (arith, length-append {0} l (encode_labels labels)) in
    let regroup : whole ≡ front' ++ tail = sym (append_assoc front (length l ∷ l) tail) in
    let later : All (λ v. v < length front') (length front ∷ visited) =
      (omega arith, All-lt_mono visited (length front) (length front') (omega arith) v) in
    let again : decode_loop fuel whole (length front + 1 + length l) (length front ∷ visited)
          (out ++ l ∷ [])
        ≡ done (
          join (codes ".") ((out ++ l ∷ []) ++ labels),
          length front' + length (encode_labels labels),
        ) =
      rw (regroup, ← size)
        (decode_loop-encode_labels labels fuel front' rest (length front ∷ visited) (out ++ l ∷ [])
          h (omega arith) later) in
    rw (encode_labels-cons l labels (pos, le), append_assoc l (encode_labels labels) rest)
      (decode_loop_label fuel front l tail visited out (pos, le) v
        ∙ again
        ∙ ap done (
            ap₂ (λ (x : List Bytes) (n : ℕ). (join (codes ".") x, n))
              (append_assoc out (l ∷ []) labels) ends))

split-IsLabel : (name : Bytes) → (length name == 0) ≡ true → ¬ All IsLabel (split b'.' name)
unfolding split
split-IsLabel [] e (h, all) = omega arith
split-IsLabel (c ∷ name) e h = ground arith

-- What `encodeDNSName` writes of a name: without white space around it, and then without a final dot
abbrev pub written : Bytes → Bytes
written name = trim_suffix (codes ".") (trim_space name)

-- Of any name decodeDNSName reads back, anywhere in a packet, what encodeDNSName wrote of it, which is the
-- name without white space around it and then without a final dot, if each label of that has 1 to 63 bytes;
-- it returns the offset behind it, with more rounds than there are labels.
pub decode_dns_name-encode_dns_name :
    (fuel : ℕ) (front name rest : Bytes)
    → All IsLabel (split b'.' (written name))
    → length (split b'.' (written name)) < fuel
    → decode_dns_name fuel (front ++ (encode_dns_name name ++ rest)) (length front)
      ≡ done (written name, length front + length (encode_dns_name name))
unfolding decode_dns_name encode_dns_name
decode_dns_name-encode_dns_name fuel front name rest h f =
    elim (Bool-cases (length (written name) == 0)) [
      | inl e ↦ absurd (split-IsLabel (written name) e h)
      | inr e ↦ rw (e) (
          decode_loop-encode_labels (split b'.' (written name)) fuel front rest [] [] h f tt
          ∙ rw (join-split b'.' (written name)))
    ]
