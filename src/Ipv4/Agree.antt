-- ===== src/Ipv4/Agree.antt =====
-- Which of the addresses that expandCIDR lists ipInTarget accepts.
use ipscry.Common.{
  ℕ, zero, suc, ◌+◌, ◌-◌, ◌^◌, ◌≤◌, ◌<◌, ◌≡◌, refl, sym, ap, ◌∙◌, ◌≢◌, ◌↔◌, ◌⊎◌, inl, inr, Bool,
  true, false, some, List, [], ◌∷◌, arith, ◌==◌, lt→ltb, Bool-cases, length, Bytes,
}
use native.Mathlib.Nat.{pow-le-pow_right}
use native.Mathlib.Bridge.{le_by_compare, IsLe}
use ipscry.Ipv4.{cidr_mask, mask_ip, ip_in_target}
use ipscry.Ipv4.Value.{ip_value, to_ip, ip_value-to_ip}
use ipscry.Ipv4.Expand.{network, powers, last_network, hosts, addresses}
use ipscry.Ipv4.Target.{ip_in_target_lem}

-- The address stands in the list.
abbrev pub IsListed : Bytes → List Bytes → Type 0
IsListed ip [] = ⊥
IsListed ip (x ∷ xs) = (ip ≡ x) ⊎ IsListed ip xs

IsListed-addresses :
    (v a n : ℕ)
    → v < 2 ^ 32
    → a + n ≤ 2 ^ 32
    → IsListed (to_ip v) (addresses a n) ↔ ((a ≤ v) × (v < a + n))
IsListed-addresses v a zero hv ha = (λ h. absurd h, λ h. omega arith)
IsListed-addresses v a (suc n) hv ha =
    let rest = IsListed-addresses v (a + 1) n hv (omega arith) in
    (
      λ h. elim h [
        | inl e ↦
            let same : v ≡ a =
              sym (ip_value-to_ip v hv) ∙ ap ip_value e ∙ ip_value-to_ip a (omega arith) in
            omega arith
        | inr l ↦ let (lo, hi) = rest.0 l in omega arith
      ],
      λ (lo, hi). elim (Bool-cases (v == a)) [
        | inl e ↦ let same : v ≡ a = ground arith in inl (ap to_ip same)
        | inr ne ↦ let other : v ≢ a = ground arith in inr (rest.1 (omega arith))
      ],
    )

-- The network of `u` with `j` host bits.
abbrev pub accepts : ℕ → ℕ → ℕ → Bool
accepts u j v =
    ip_in_target (some (to_ip v)) (mask_ip (to_ip u) (cidr_mask 4 (32 - j))) (cidr_mask 4 (32 - j))

four-le : (j : ℕ) → 2 ≤ j → 2 ^ 2 ≤ 2 ^ j
unfolding IsLe
four-le j h = pow-le-pow_right (le_by_compare 1 2 tt) h

-- In a network of /16 to /30 the ARP cache and the discovery protocols are held to exactly the
-- addresses that are scanned: `ipInTarget` accepts those that `expandCIDR` lists.
pub ip_in_target_iff_IsListed :
    (u j v : ℕ)
    → u < 2 ^ 32
    → v < 2 ^ 32
    → 2 ≤ j
    → j ≤ 16
    → (accepts u j v ≡ true) ↔ IsListed (to_ip v) (hosts u j)
ip_in_target_iff_IsListed u j v hu hv lo hi =
    let big = four-le j lo in
    let (le, pos, whole) = powers j hi in
    let fits = last_network u (2 ^ j) (2 ^ (32 - j)) pos hu whole in
    let listed = IsListed-addresses v (network u j + 1) (2 ^ j - 2) hv (omega arith) in
    rw (ip_in_target_lem u j v hu hv hi, lt→ltb 2 (2 ^ j) (omega arith))
      (λ e. listed.1 (ground arith), λ l. let (a, b) = listed.0 l in ground arith)

-- In a /31 and a /32 `ipInTarget` accepts no address, and `expandCIDR` lists two and one.
pub ip_in_target_tiny :
    (u j : ℕ)
    → u < 2 ^ 32
    → j ≤ 1
    → (length (hosts u j) ≡ 2 ^ j) × ((v : ℕ) → v < 2 ^ 32 → accepts u j v ≡ false)
ip_in_target_tiny u zero hu h =
    (refl, λ v hv. rw (ip_in_target_lem u 0 v hu hv (omega arith)) (ground arith))
ip_in_target_tiny u (suc zero) hu h =
    (refl, λ v hv. rw (ip_in_target_lem u 1 v hu hv (omega arith)) (ground arith))
ip_in_target_tiny u (suc (suc j)) hu h = absurd (omega arith)
