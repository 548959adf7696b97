-- ===== src/Ipv4/Target.antt =====
-- The addresses that ipInTarget accepts, against those that expandCIDR lists.
use ipscry.Common.{
  ℕ, ◌+◌, ◌-◌, ◌*◌, ◌/◌, ◌%◌, ◌^◌, ◌≤◌, ◌<◌, bit_or, ◌≡◌, refl, ◌∙◌, ◌≢◌, inl, inr, true, false,
  not, ◌&&◌, some, arith, ltb, ◌==◌, if◌then◌else◌, ltb→lt, ltb→le, ==_iff, Bool-cases, holds_below,
  holds_below_sound, agree_below,
}
use mathlib.Core.Path.{ap₂}
use native.Mathlib.Nat.{div-add-mod, mod-lt}
use ipscry.Ipv4.{cidr_mask, mask_ip, ip_equal, broadcast, ip_in_target}
use ipscry.Ipv4.Value.{to_ip}
use ipscry.Ipv4.Network.{
  for_nine, eq_address, mask_small, mask_large, net_contains-to_ip, mask_ip-to_ip, and-true, clears,
}
use ipscry.Ipv4.Expand.{network, powers, last_network, div_between}

-- Setting the low bits of a byte in which they are clear.
or_table :
    holds_below 9 (λ j. holds_below 256 (λ x.
      bit_or (x / 2 ^ j * 2 ^ j) (255 - (255 - 255 / 2 ^ (8 - j)))
      == x / 2 ^ j * 2 ^ j + 2 ^ j - 1))
    ≡ true
unfolding holds_below
or_table = refl

or_mask :
    (j x : ℕ)
    → j < 9
    → x < 256
    → bit_or (x / 2 ^ j * 2 ^ j) (255 - (255 - 255 / 2 ^ (8 - j))) ≡ x / 2 ^ j * 2 ^ j + 2 ^ j - 1
or_mask j x hj hx =
    (==_iff _ _).0 (holds_below_sound 256 _ x (holds_below_sound 9 _ j or_table hj) hx)

ip_equal-to_ip : (u v : ℕ) → u < 2 ^ 32 → v < 2 ^ 32 → ip_equal (to_ip u) (to_ip v) ≡ (u == v)
unfolding ip_equal
ip_equal-to_ip u v hu hv = rw (and-true (u % 256 == v % 256)) (
    eq_address (u / 2 ^ 24 % 256) (u / 2 ^ 16 % 256) (u / 256 % 256) (u % 256) (v / 2 ^ 24 % 256)
      (v / 2 ^ 16 % 256) (v / 256 % 256) (v % 256) 256 (omega arith) (omega arith) (omega arith)
      (omega arith) (omega arith) (omega arith)
    ∙ ap₂ ◌==◌ (omega arith) (omega arith))

or_none : (x : ℕ) → x < 256 → bit_or x 0 ≡ x
unfolding holds_below
or_none = agree_below 256 _ _ refl

-- The number of the last address of the network with `j` host bits that holds `u`.
abbrev pub last : ℕ → ℕ → ℕ
last u j = network u j + 2 ^ j - 1

-- Its last byte and the bytes above, for `j` and for `8 + j` host bits.
abbrev Fills : ℕ → Type 0
Fills j =
    (u : ℕ)
    → (last u j / 256 ≡ u / 256)
      × (last u j % 256 ≡ u % 256 / 2 ^ j * 2 ^ j + 2 ^ j - 1)
      × (last u (8 + j) % 256 ≡ 255)
      × (last u (8 + j) / 256 ≡ last (u / 256) j)

fills : (j : ℕ) → j < 9 → Fills j
fills =
    for_nine Fills (λ u. omega arith) (λ u. omega arith) (λ u. omega arith) (λ u. omega arith)
      (λ u. omega arith) (λ u. omega arith) (λ u. omega arith) (λ u. omega arith) (λ u. omega arith)

broadcast_small :
    (j : ℕ)
    → j < 9
    → (u : ℕ) → broadcast (to_ip (network u j)) (cidr_mask 4 (32 - j)) ≡ to_ip (last u j)
unfolding broadcast
broadcast_small j h u =
    let (hi, lo, _) = clears j h u in
    let (hi', lo', _, _) = fills j h u in
    rw
      (
        mask_small j h,
        or_none (network u j / 2 ^ 24 % 256) (omega arith),
        or_none (network u j / 2 ^ 16 % 256) (omega arith),
        or_none (network u j / 256 % 256) (omega arith),
        lo,
        or_mask j (u % 256) h (omega arith),
      )
      (ground (arith, hi, hi', lo'))

broadcast_large :
    (j k : ℕ)
    → 8 + k ≡ j
    → k < 9
    → (u : ℕ) → broadcast (to_ip (network u j)) (cidr_mask 4 (32 - j)) ≡ to_ip (last u j)
unfolding broadcast
broadcast_large j k e h u =
    let m : 32 - (8 + k) ≡ 24 - k = omega arith in
    let (hi, lo, _) = clears k h (u / 256) in
    let (_, _, both) = clears k h u in
    let (hi', lo', _, _) = fills k h (u / 256) in
    let (_, _, low, up) = fills k h u in
    let third : network u (8 + k) / 256 % 256 ≡ u / 256 % 256 / 2 ^ k * 2 ^ k = omega arith in
    let fourth : network u (8 + k) % 256 ≡ 0 = omega arith in
    rw
      (
        ← e,
        m,
        mask_large k h,
        third,
        fourth,
        or_none (network u (8 + k) / 2 ^ 24 % 256) (omega arith),
        or_none (network u (8 + k) / 2 ^ 16 % 256) (omega arith),
        or_mask k (u / 256 % 256) h (omega arith),
      )
      (ground (arith, hi, hi', lo', low, up, both))

broadcast-last :
    (j : ℕ)
    → j ≤ 16
    → (u : ℕ) → broadcast (to_ip (network u j)) (cidr_mask 4 (32 - j)) ≡ to_ip (last u j)
broadcast-last j h u = elim (Bool-cases (ltb j 9)) [
  | inl small ↦ broadcast_small j (ltb→lt _ _ small) u
  | inr large ↦
      let low : 9 ≤ j = ltb→le _ _ large in broadcast_large j (j - 8) (omega arith) (omega arith) u
]

-- The tests of `ipInTarget` on the numbers, for the network at `m * p` and the address `v` in the
-- network at `q * p`.
between :
    (m q p v : ℕ)
    → q * p ≤ v
    → v < (q + 1) * p
    → (if not (m == q) then false else if v == m * p then false else not (v == m * p + p - 1))
      ≡ (ltb (m * p) v && ltb v (m * p + p - 1))
between m q p v lo hi = elim (Bool-cases (m == q)) [
  | inl same ↦ let e : m ≡ q = ground arith in rw e (ground arith)
  | inr other ↦ elim (Bool-cases (ltb m q)) [
    | inl l ↦
        let up : m < q = ltb→lt m q l in
        let step : (m + 1) * p ≤ q * p = grind arith in rw other (ground arith)
    | inr g ↦
        let down : q ≤ m = ltb→le m q g in
        let ne : m ≢ q = ground arith in
        let below : q < m = omega arith in
        let step : (q + 1) * p ≤ m * p = grind arith in rw other (ground arith)
  ]
]

-- `ipInTarget` accepts the addresses strictly between the network's first and last, and no other.
pub ip_in_target_lem :
    (u j v : ℕ)
    → u < 2 ^ 32
    → v < 2 ^ 32
    → j ≤ 16
    → ip_in_target
        (some (to_ip v))
        (mask_ip (to_ip u) (cidr_mask 4 (32 - j)))
        (cidr_mask 4 (32 - j))
      ≡ (ltb (network u j) v && ltb v (last u j))
unfolding ip_in_target
ip_in_target_lem u j v hu hv h =
    let (le, pos, whole) = powers j h in
    let fits : (u / 2 ^ j + 1) * 2 ^ j ≤ 2 ^ 32 =
      last_network u (2 ^ j) (2 ^ (32 - j)) pos hu whole in
    let digit : network u j / 2 ^ j ≡ u / 2 ^ j =
      div_between (network u j) (u / 2 ^ j) (2 ^ j) (omega arith) (omega arith) in
    rw
      (
        mask_ip-to_ip j h u,
        net_contains-to_ip j h (network u j) v (omega arith) hv,
        digit,
        broadcast-last j h u,
        ip_equal-to_ip v (network u j) hv (omega arith),
        ip_equal-to_ip v (last u j) hv (omega arith),
      )
      (between (u / 2 ^ j) (v / 2 ^ j) (2 ^ j) v (omega (arith, div-add-mod v (2 ^ j)))
        (omega (arith, div-add-mod v (2 ^ j), mod-lt v pos)))
