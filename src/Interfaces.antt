-- ===== src/Interfaces.antt =====
-- The network interfaces of the machine: ipv4FromAddr and localCIDRs of main.go, ifaceForTarget and
-- discoveryEligible of multicast.go. What net.Interfaces returns is an argument.
use ipscry.Common.{
  Bool, false, not, ◌&&◌, ◌||◌, Option, none, some, List, [], ◌∷◌, ◌++◌, ltb, ◌==◌, if◌then◌else◌,
  Bytes,
}
use ipscry.Args.{one_of}
use ipscry.Ipv4.{ParsedCidr, net_contains, is_private_ipv4}

-- A net.Addr: a network with its address by To4 and its text, an address, or another one
pub data Addr : Type 0 where
  ip_net : Option Bytes → Bytes → Addr
  ip_addr : Option Bytes → Addr
  other_addr : Addr

pub record Interface : Type 0 where
  pub up : Bool
  pub loopback : Bool
  pub addrs : Option (List Addr)

unfoldable pub ipv4_from_addr : Addr → Option Bytes
ipv4_from_addr (ip_net ip text) = ip
ipv4_from_addr (ip_addr ip) = ip
ipv4_from_addr other_addr = none

-- The loop of `localCIDRs` over the addresses, with the targets so far, which `seen` holds too
unfoldable pub add_target : Addr → List Bytes → List Bytes
unfolding is_private_ipv4 one_of
add_target (ip_net ip text) targets =
    if not (is_private_ipv4 ip) || one_of targets text then targets else targets ++ text ∷ []
add_target (ip_addr ip) targets = targets
add_target other_addr targets = targets

unfoldable pub add_targets : List Addr → List Bytes → List Bytes
unfolding add_target
add_targets [] targets = targets
add_targets (a ∷ addrs) targets = add_targets addrs (add_target a targets)

unfoldable pub add_interface : Interface → List Bytes → List Bytes
unfolding add_targets
add_interface i targets =
    if not i.up || i.loopback
    then targets
    else elim i.addrs [ none ↦ targets | some addrs ↦ add_targets addrs targets ]

unfoldable pub add_interfaces : List Interface → List Bytes → List Bytes
unfolding add_interface
add_interfaces [] targets = targets
add_interfaces (i ∷ ifaces) targets = add_interfaces ifaces (add_interface i targets)

pub data LocalResult : Type 0 where
  local : List Bytes → LocalResult
  no_interfaces no_adapter : LocalResult

unfoldable pub targets_or_error : List Bytes → LocalResult
targets_or_error [] = no_adapter
targets_or_error (t ∷ targets) = local (t ∷ targets)

-- `none` is the error of net.Interfaces.
unfoldable pub local_cidrs : Option (List Interface) → LocalResult
unfolding add_interfaces targets_or_error
local_cidrs none = no_interfaces
local_cidrs (some ifaces) = targets_or_error (add_interfaces ifaces [])

-- The loops of `ifaceForTarget`: the first private address in the network
unfoldable pub addr_in : Bytes → Bytes → Option Bytes → Bool
unfolding is_private_ipv4 net_contains
addr_in net mask none = false
addr_in net mask (some ip) = is_private_ipv4 (some ip) && net_contains net mask ip

unfoldable pub first_addr : Bytes → Bytes → List Addr → Option Bytes
unfolding addr_in ipv4_from_addr
first_addr net mask [] = none
first_addr net mask (a ∷ addrs) =
    let rest = first_addr net mask addrs in
    if addr_in net mask (ipv4_from_addr a) then ipv4_from_addr a else rest

unfoldable pub addr_of : Bytes → Bytes → Interface → Option Bytes
unfolding first_addr
addr_of net mask i =
    if not i.up || i.loopback
    then none
    else elim i.addrs [ none ↦ none | some addrs ↦ first_addr net mask addrs ]

abbrev pub with_interface :
    Interface → Option Bytes → Option (Interface × Bytes) → Option (Interface × Bytes)
with_interface i none rest = rest
with_interface i (some ip) rest = some (i, ip)

unfoldable pub first_interface : Bytes → Bytes → List Interface → Option (Interface × Bytes)
unfolding addr_of
first_interface net mask [] = none
first_interface net mask (i ∷ ifaces) =
    with_interface i (addr_of net mask i) (first_interface net mask ifaces)

unfoldable pub iface_for_target :
    Option ParsedCidr → Option (List Interface) → Option (Interface × Bytes)
unfolding first_interface
iface_for_target (some p) (some ifaces) = first_interface p.net_ip p.mask ifaces
iface_for_target _ _ = none

unfoldable pub eligible : ParsedCidr → Option (Interface × Bytes) → Option (Interface × Bytes)
unfolding net_contains
eligible p none = none
eligible p (some (i, ip)) =
    if not (p.bits == 32) || (ltb p.ones 24 || not (net_contains p.net_ip p.mask ip))
    then none
    else some (i, ip)

unfoldable pub discovery_eligible :
    Option ParsedCidr → Option (List Interface) → Option (Interface × Bytes)
unfolding iface_for_target eligible
discovery_eligible none ifaces = none
discovery_eligible (some p) ifaces = eligible p (iface_for_target (some p) ifaces)
