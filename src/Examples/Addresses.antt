-- ===== src/Examples/Addresses.antt =====
-- The theorems on IPv4 networks at concrete inputs, and runs of their definitions.
use ipscry.Common.{ℕ, ◌+◌, ◌^◌, ◌<◌, ◌≡◌, refl, ◌↔◌, true, false, some, arith, length}
use ipscry.Ipv4.{ok, cidr_mask, mask_ip, expand_loop, expand_cidr, expand_fuel, usable}
use ipscry.Ipv4.Value.{to_ip}
use ipscry.Ipv4.Expand.{addresses, parsed, hosts, expand_cidr-hosts}
use ipscry.Ipv4.Target.{}
use ipscry.Ipv4.Agree.{IsListed, accepts, ip_in_target_iff_IsListed, ip_in_target_tiny}

-- 192.168.1.0
abbrev home : ℕ
home = 3232235776

-- 192.168.1.9/30 is scanned at .9 and .10.
expand_cidr_runs : expand_cidr 9 (some (parsed (home + 9) 2)) ≡ ok (addresses (home + 9) 2)
unfolding expand_cidr expand_loop mask_ip usable cidr_mask
expand_cidr_runs = refl

expand_cidr-hosts_example :
    expand_cidr expand_fuel (some (parsed (home + 9) 2)) ≡ ok (hosts (home + 9) 2)
expand_cidr-hosts_example = expand_cidr-hosts (home + 9) 2 (omega arith) (omega arith)

ip_in_target_iff_IsListed_example :
    (accepts (home + 9) 2 (home + 10) ≡ true) ↔ IsListed (to_ip (home + 10)) (hosts (home + 9) 2)
ip_in_target_iff_IsListed_example =
    ip_in_target_iff_IsListed (home + 9) 2 (home + 10) (omega arith) (omega arith) (omega arith)
      (omega arith)

ip_in_target_tiny_example :
    (length (hosts (home + 9) 0) ≡ 2 ^ 0) × ((v : ℕ) → v < 2 ^ 32 → accepts (home + 9) 0 v ≡ false)
ip_in_target_tiny_example = ip_in_target_tiny (home + 9) 0 (omega arith) (omega arith)
