-- ===== src/Ipv4/Expand.antt =====
-- The addresses that expandCIDR lists.
use ipscry.Common.{
  ℕ, zero, suc, ◌+◌, ◌-◌, ◌*◌, ◌/◌, ◌%◌, ◌^◌, ◌≤◌, ◌<◌, ◌≡◌, refl, sym, ap, ◌∙◌, ◌≢◌, inl, inr,
  true, false, ◌&&◌, some, List, [], ◌∷◌, arith, ltb, leb, ◌==◌, if◌then◌else◌, ltb→lt, ltb→le,
  Bool-cases, length, take, drop, Bytes, holds_below, holds_below_sound,
}
use native.Mathlib.Nat.{div-lt_iff_lt-mul}
use ipscry.Ipv4.{
  ok, ParsedCidr, cidr_mask, mask_ip, net_contains, expand_loop, expand_fuel, usable, expand_cidr,
}
use ipscry.Ipv4.Value.{to_ip, inc_ip-to_ip}
use ipscry.Ipv4.Network.{net_contains-to_ip, mask_ip-to_ip}

-- `count` addresses from the number `v` on.
abbrev pub addresses : ℕ → ℕ → List Bytes
addresses v zero = []
addresses v (suc count) = to_ip v ∷ addresses (v + 1) count

-- What net.ParseCIDR returns for the address `u` and a mask that leaves `j` host bits.
abbrev pub parsed : ℕ → ℕ → ParsedCidr
parsed u j = record {
  to4 = some (to_ip u);
  ones = 32 - j;
  bits = 32;
  net_ip = mask_ip (to_ip u) (cidr_mask 4 (32 - j));
  mask = cidr_mask 4 (32 - j);
}

-- The number of the network's own address.
abbrev pub network : ℕ → ℕ → ℕ
network u j = u / 2 ^ j * 2 ^ j

-- All addresses but the first and the last, or all of one or two.
abbrev pub hosts : ℕ → ℕ → List Bytes
hosts u j =
    if ltb 2 (2 ^ j)
    then addresses (network u j + 1) (2 ^ j - 2)
    else addresses (network u j) (2 ^ j)

power_table :
    holds_below 17 (λ j. leb (2 ^ j) (2 ^ 16) && (ltb 0 (2 ^ j) && 2 ^ j * 2 ^ (32 - j) == 2 ^ 32))
    ≡ true
unfolding holds_below
power_table = refl

pub powers : (j : ℕ) → j ≤ 16 → (2 ^ j ≤ 2 ^ 16) × (0 < 2 ^ j) × (2 ^ j * 2 ^ (32 - j) ≡ 2 ^ 32)
powers j h = ground (arith, holds_below_sound 17 _ j power_table (omega arith))

pub div_between : (v m p : ℕ) → m * p ≤ v → v < (m + 1) * p → v / p ≡ m
div_between v m p lo hi = grind arith

first_network : (m p : ℕ) → 2 ^ 32 ≤ (m + 1) * p → p ≤ 2 ^ 16 → m ≢ 0
first_network m p h k e = let one : (m + 1) * p ≡ p = rw e (omega arith) in omega arith

pub last_network : (u p q : ℕ) → 0 < p → u < 2 ^ 32 → p * q ≡ 2 ^ 32 → (u / p + 1) * p ≤ 2 ^ 32
last_network u p q pos hu e =
    let below : u / p < q = (div-lt_iff_lt-mul pos).1 (omega arith) in
    let le : (u / p + 1) * p ≤ q * p = grind arith in omega arith

module _ (j m : ℕ) (h : j ≤ 16) (small : (m + 1) * 2 ^ j ≤ 2 ^ 32) where
  abbrev net : Bytes
  net = to_ip (m * 2 ^ j)

  abbrev mask : Bytes
  mask = cidr_mask 4 (32 - j)

  inside : (v : ℕ) → m * 2 ^ j ≤ v → v < (m + 1) * 2 ^ j → net_contains net mask (to_ip v) ≡ true
  inside v lo hi =
      let (_, pos, _) = powers j h in
      let base : m * 2 ^ j < (m + 1) * 2 ^ j = omega arith in
      rw
        (
          net_contains-to_ip j h (m * 2 ^ j) v (omega arith) (omega arith),
          div_between (m * 2 ^ j) m (2 ^ j) (omega arith) base,
          div_between v m (2 ^ j) lo hi,
        )
        (ground arith)

  outside : (v : ℕ) → v ≡ (m + 1) * 2 ^ j → net_contains net mask (to_ip (v % 2 ^ 32)) ≡ false
  outside v e =
      let (le, pos, _) = powers j h in
      let base : m * 2 ^ j < (m + 1) * 2 ^ j = omega arith in
      let next = v % 2 ^ 32 in
      let beyond : next / 2 ^ j ≢ m = elim (Bool-cases (ltb v (2 ^ 32))) [
        | inl l ↦
            let fits : v < 2 ^ 32 = ltb→lt v (2 ^ 32) l in
            let same : next ≡ v = omega arith in
            rw (same, div_between v (m + 1) (2 ^ j) (omega arith) (omega arith)) (omega arith)
        | inr g ↦
            let over : 2 ^ 32 ≤ v = ltb→le v (2 ^ 32) g in
            let zero_ip : next ≡ 0 = omega arith in
            rw (zero_ip, div_between 0 0 (2 ^ j) (omega arith) (omega arith))
              (λ z. absurd (first_network m (2 ^ j) (omega arith) le (sym z)))
      ] in
      rw
        (
          net_contains-to_ip j h (m * 2 ^ j) next (omega arith) (omega arith),
          div_between (m * 2 ^ j) m (2 ^ j) (omega arith) base,
        )
        (ground (arith, beyond))

  -- From `v` on the loop lists the addresses up to the network's end.
  expand_loop-addresses :
      (count fuel v : ℕ)
      → count < fuel
      → m * 2 ^ j ≤ v
      → v + suc count ≡ (m + 1) * 2 ^ j
      → expand_loop (suc fuel) net mask (to_ip v) ≡ addresses v (suc count)
  unfolding expand_loop
  expand_loop-addresses zero zero v f lo e = absurd (omega arith)
  expand_loop-addresses zero (suc fuel) v f lo e =
      rw (inside v lo (omega arith), inc_ip-to_ip v (omega arith), outside (v + 1) (omega arith))
        refl
  expand_loop-addresses (suc count) zero v f lo e = absurd (omega arith)
  expand_loop-addresses (suc count) (suc fuel) v f lo e =
      let next : (v + 1) % 2 ^ 32 ≡ v + 1 = omega arith in
      rw (inside v lo (omega arith), inc_ip-to_ip v (omega arith), next)
        (ap (◌∷◌ (to_ip v))
          (expand_loop-addresses count fuel (v + 1) (omega arith) (omega arith) (omega arith)))

length-addresses : (v n : ℕ) → length (addresses v n) ≡ n
length-addresses v zero = refl
length-addresses v (suc n) = ap suc (length-addresses (v + 1) n)

take-addresses : (k v n : ℕ) → k ≤ n → take k (addresses v n) ≡ addresses v k
take-addresses zero v n h = refl
take-addresses (suc k) v zero h = absurd (omega arith)
take-addresses (suc k) v (suc n) h = ap (◌∷◌ (to_ip v)) (take-addresses k (v + 1) n (omega arith))

drop-addresses : (v n : ℕ) → 0 < n → drop 1 (addresses v n) ≡ addresses (v + 1) (n - 1)
drop-addresses v zero h = absurd (omega arith)
drop-addresses v (suc n) h = ap (addresses (v + 1)) (omega arith)

usable-addresses :
    (v n : ℕ)
    → 0 < n
    → usable (addresses v n) ≡ (if ltb 2 n then addresses (v + 1) (n - 2) else addresses v n)
unfolding usable
usable-addresses v n h =
    rw (length-addresses v n, drop-addresses v n h)
      (elim (Bool-cases (ltb 2 n)) [
        | inl e ↦ rw e (take-addresses (n - 2) (v + 1) (n - 1) (omega arith))
        | inr e ↦ rw e
      ])

-- The whole network, from its own address.
expand_loop-network :
    (u j fuel : ℕ)
    → j ≤ 16
    → u < 2 ^ 32
    → 2 ^ 16 < fuel
    → expand_loop fuel (to_ip (network u j)) (cidr_mask 4 (32 - j)) (to_ip (network u j))
      ≡ addresses (network u j) (2 ^ j)
expand_loop-network u j fuel h hu hf =
    let (le, pos, whole) = powers j h in
    let m = u / 2 ^ j in
    let fits : (m + 1) * 2 ^ j ≤ 2 ^ 32 = last_network u (2 ^ j) (2 ^ (32 - j)) pos hu whole in
    let count : suc (2 ^ j - 1) ≡ 2 ^ j = omega arith in
    let rounds : suc (fuel - 1) ≡ fuel = omega arith in
    ap (λ f. expand_loop f (to_ip (network u j)) (cidr_mask 4 (32 - j)) (to_ip (network u j)))
      (sym rounds)
    ∙ expand_loop-addresses j m h fits (2 ^ j - 1) (fuel - 1) (network u j) (omega arith)
        (omega arith) (omega arith)
    ∙ ap (addresses (network u j)) count

-- On a network of /16 to /32, `expandCIDR` lists its addresses in order without the first and the
-- last, or all of them if it has one or two; the loop ends by its own test.
pub expand_cidr-hosts :
    (u j : ℕ) → u < 2 ^ 32 → j ≤ 16 → expand_cidr expand_fuel (some (parsed u j)) ≡ ok (hosts u j)
unfolding expand_cidr
expand_cidr-hosts u j hu h =
    let (le, pos, whole) = powers j h in
    let big : ltb (32 - j) 16 ≡ false = ground arith in
    rw (
      big,
      mask_ip-to_ip j h u,
      expand_loop-network u j expand_fuel h hu (omega arith),
      usable-addresses (network u j) (2 ^ j) pos,
    )
