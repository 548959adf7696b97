-- ===== src/Ipv4.antt =====
-- IPv4 addresses and networks: expandCIDR, incIP, ipInTarget, isPrivateIPv4, lessIP and the size
-- checks of main.go. An address is its four bytes; what net.ParseCIDR returns is an input.
pub mod Value
pub mod Network
pub mod Expand
pub mod Target
pub mod Agree
use ipscry.Common.Text.{text_lt}
use ipscry.Common.{
  ℕ, zero, suc, ◌+◌, ◌-◌, ◌/◌, ◌%◌, ◌^◌, bit_and, bit_or, Bool, true, false, not, ◌&&◌, ◌||◌,
  Option, none, some, List, [], ◌∷◌, ltb, leb, ◌==◌, if◌then◌else◌, length, get_or, set, take, drop,
  Bytes,
}

-- net.CIDRMask(n, 8 * rounds)
unfoldable pub cidr_mask : ℕ → ℕ → Bytes
cidr_mask zero n = []
cidr_mask (suc rounds) n =
    if leb 8 n then 255 ∷ cidr_mask rounds (n - 8) else (255 - 255 / 2 ^ n) ∷ cidr_mask rounds 0

-- ip.Mask(mask), for slices of one length
unfoldable pub mask_ip : Bytes → Bytes → Bytes
mask_ip [] m = []
mask_ip (x ∷ ip) [] = []
mask_ip (x ∷ ip) (b ∷ m) = bit_and x b ∷ mask_ip ip m

-- The results of net.ParseCIDR: the address by To4, the mask's size, and the network.
pub record ParsedCidr : Type 0 where
  pub to4 : Option Bytes
  pub ones : ℕ
  pub bits : ℕ
  pub net_ip : Bytes
  pub mask : Bytes

-- ipNet.Contains(ip)
unfoldable pub net_contains : Bytes → Bytes → Bytes → Bool
net_contains [] [] [] = true
net_contains (n ∷ net) (m ∷ mask) (x ∷ ip) = bit_and n m == bit_and x m && net_contains net mask ip
net_contains _ _ _ = false

-- ip.Equal(other), for slices of one length
unfoldable pub ip_equal : Bytes → Bytes → Bool
ip_equal [] [] = true
ip_equal (x ∷ a) (y ∷ b) = x == y && ip_equal a b
ip_equal _ _ = false

-- `incIP`, with `rounds` bytes left to visit, the last of them first.
unfoldable pub inc_bytes : ℕ → Bytes → Bytes
inc_bytes zero ip = ip
inc_bytes (suc i) ip =
    let v = (get_or ip i 0 + 1) % 256 in
    let stepped = set ip i v in
    let carried = inc_bytes i stepped in if ltb 0 v then stepped else carried

unfoldable pub inc_ip : Bytes → Bytes
unfolding inc_bytes
inc_ip ip = inc_bytes (length ip) ip

pub data CidrError : Type 0 where
  invalid_cidr only_ipv4 too_large : CidrError

pub data CidrResult {ℓ} (A : Type ℓ) : Type ℓ where
  ok : A → CidrResult A
  err : CidrError → CidrResult A

-- The loop of `expandCIDR`. A network of /16 or smaller has 2 ^ 16 addresses at most.
unfoldable pub expand_loop : ℕ → Bytes → Bytes → Bytes → List Bytes
unfolding net_contains inc_ip
expand_loop zero net mask current = []
expand_loop (suc fuel) net mask current =
    let rest = current ∷ expand_loop fuel net mask (inc_ip current) in
    if net_contains net mask current then rest else []

abbrev pub expand_fuel : ℕ
expand_fuel = 2 ^ 16 + 1

-- `if len(ips) > 2 { ips = ips[1 : len(ips)-1] }`
unfoldable pub usable : List Bytes → List Bytes
usable ips = if ltb 2 (length ips) then take (length ips - 2) (drop 1 ips) else ips

-- `none` is the error of net.ParseCIDR. The fuel is an argument, so that it stays shut in proofs.
unfoldable pub expand_cidr : ℕ → Option ParsedCidr → CidrResult (List Bytes)
expand_cidr fuel none = err invalid_cidr
expand_cidr fuel (some p) = elim p.to4 [
  | none ↦ err only_ipv4
  | some ip ↦
      if not (p.bits == 32) || ltb p.ones 16
      then err too_large
      else ok (usable (expand_loop fuel p.net_ip p.mask (mask_ip ip p.mask)))
]

unfoldable pub broadcast : Bytes → Bytes → Bytes
broadcast (n ∷ net) (m ∷ mask) = bit_or n (255 - m) ∷ broadcast net mask
broadcast _ _ = []

-- `none` for an address that net.ParseIP does not read or that is not IPv4.
unfoldable pub ip_in_target : Option Bytes → Bytes → Bytes → Bool
unfolding net_contains ip_equal broadcast
ip_in_target none net mask = false
ip_in_target (some ip) net mask =
    if not (net_contains net mask ip)
    then false
    else if ip_equal ip net
    then false
    else not (ip_equal ip (broadcast net mask))

unfoldable pub is_private_ipv4 : Option Bytes → Bool
is_private_ipv4 none = false
is_private_ipv4 (some ip) =
    get_or ip 0 0 == 10
    || (get_or ip 0 0 == 172 && (leb 16 (get_or ip 1 0) && leb (get_or ip 1 0) 31))
    || (get_or ip 0 0 == 192 && get_or ip 1 0 == 168)

-- The loop of `lessIP` over two IPv4 addresses; `by_text` is its `a < b` for other texts.
unfoldable pub less_bytes : Bytes → Bytes → Bool
less_bytes (x ∷ a) (y ∷ b) = if not (x == y) then ltb x y else less_bytes a b
less_bytes _ _ = false

unfoldable pub less_ip : Option Bytes → Option Bytes → Bool → Bool
unfolding less_bytes
less_ip (some a) (some b) by_text = less_bytes a b
less_ip _ _ by_text = by_text

-- `lessIP(a, b)` on texts; `parse` is `net.ParseIP(s).To4()`.
unfoldable pub less_address : (Bytes → Option Bytes) → Bytes → Bytes → Bool
unfolding less_ip text_lt
less_address parse a b = less_ip (parse a) (parse b) (text_lt a b)

-- The int is at most 2 ^ 32, so it cannot overflow. A prefix below 0 is not representable here.
unfoldable pub cidr_usable_host_count : ℕ → ℕ
cidr_usable_host_count prefix =
    if ltb 32 prefix
    then 0
    else let addrs = 2 ^ (32 - prefix) in if leb addrs 2 then 0 else addrs - 2

abbrev pub tui_max_prefix : ℕ
tui_max_prefix = 22

abbrev pub tui_warn_prefix : ℕ
tui_warn_prefix = 23

unfoldable pub cidr_prefix_len : Option ParsedCidr → CidrResult ℕ
cidr_prefix_len none = err invalid_cidr
cidr_prefix_len (some p) = if not (p.bits == 32) then err only_ipv4 else ok p.ones

pub data TuiCheck : Type 0 where
  allowed : TuiCheck
  refused_target : CidrError → TuiCheck
  refused_size : ℕ → TuiCheck
  not_interactive read_failed cancelled : TuiCheck

-- What `confirmPrompt` returns: an error of the reader, or whether the line was y or yes.
pub data Answer : Type 0 where
  failed : Answer
  line : Bool → Answer

unfoldable pub confirm : Bool → Answer → TuiCheck
confirm interactive failed = if not interactive then not_interactive else read_failed
confirm interactive (line said_yes) =
    if not interactive then not_interactive else if not said_yes then cancelled else allowed

unfoldable pub check_prefix : ℕ → Bool → Answer → TuiCheck
unfolding confirm cidr_usable_host_count
check_prefix prefix interactive answer =
    if ltb tui_warn_prefix prefix
    then allowed
    else if ltb prefix tui_max_prefix
    then refused_size (cidr_usable_host_count tui_max_prefix)
    else confirm interactive answer

unfoldable pub check_tui_network_size : Option ParsedCidr → Bool → Answer → TuiCheck
unfolding check_prefix cidr_prefix_len
check_tui_network_size p interactive answer = elim (cidr_prefix_len p) [
  | err e ↦ refused_target e
  | ok prefix ↦ check_prefix prefix interactive answer
]
