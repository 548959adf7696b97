-- ===== src/ArpCache.antt =====
-- The ARP cache in a scan, in main.go: arpCacheForTarget, mergeARPCacheHosts and arpCacheEntryForIP.
use ipscry.Ipv4.{less_address}
use ipscry.Common.{Bool, not, ◌&&◌, ◌||◌, Option, none, some, List, [], ◌∷◌, if◌then◌else◌, Bytes}
use ipscry.Common.Text.{text_eq}
use ipscry.Common.Maps.{find, put}
use ipscry.Common.Order.{sort_by}
use ipscry.Hosts.{ArpCacheEntry, DiscoveryHit}
use ipscry.Macs.{valid_arp_mac}

-- A target: the test `ipInTarget` for its network, where net.ParseCIDR reads it; what the ARP table holds
-- when it is asked; and what runLANDiscovery finds.
pub record Target : Type 0 where
  pub network : Option (Bytes → Bool)
  pub neighbours : List ArpCacheEntry
  pub discovered : List (Bytes × DiscoveryHit)

-- The loop of `arpCacheForTarget`, with the map so far
unfoldable pub add_neighbours :
    (Bytes → Bool)
    → List ArpCacheEntry
    → List (Bytes × ArpCacheEntry)
    → List (Bytes × ArpCacheEntry)
unfolding put valid_arp_mac
add_neighbours in_target [] out = out
add_neighbours in_target (entry ∷ entries) out = add_neighbours in_target entries (
    if not (in_target entry.ip) || not (valid_arp_mac entry.mac)
    then out
    else put entry.ip entry out)

unfoldable pub arp_cache_for_target :
    (Bytes → Bool) → List ArpCacheEntry → List (Bytes × ArpCacheEntry)
unfolding add_neighbours
arp_cache_for_target in_target entries = add_neighbours in_target entries []

-- The loop of `mergeARPCacheHosts`, before it sorts
unfoldable pub offline_entries :
    List (Bytes × Unit {0}) → List ArpCacheEntry → (Bytes → Bool) → List ArpCacheEntry
unfolding find valid_arp_mac
offline_entries live [] in_target = []
offline_entries live (entry ∷ entries) in_target =
    let rest = offline_entries live entries in_target in
    elim (find entry.ip live) [
      | some here ↦ rest
      | none ↦
          if not (in_target entry.ip) || not (valid_arp_mac entry.mac) then rest else entry ∷ rest
    ]

unfoldable pub merge_arp_cache_hosts :
    (Bytes → Option Bytes)
    → List (Bytes × Unit {0})
    → List ArpCacheEntry
    → (Bytes → Bool)
    → List ArpCacheEntry
unfolding offline_entries less_address sort_by
merge_arp_cache_hosts parse live entries in_target =
    sort_by (λ a b. less_address parse a.ip b.ip) (offline_entries live entries in_target)

-- The loop of `arpCacheEntryForIP` over the entries, and the one over the targets
unfoldable pub neighbour_entry : Bytes → List ArpCacheEntry → Option ArpCacheEntry
unfolding text_eq valid_arp_mac
neighbour_entry ip [] = none
neighbour_entry ip (entry ∷ entries) =
    let rest = neighbour_entry ip entries in
    if text_eq entry.ip ip && valid_arp_mac entry.mac then some entry else rest

-- What is found at a target, before what the targets behind it give
unfoldable pub entry_or : Option ArpCacheEntry → Option ArpCacheEntry → Option ArpCacheEntry
entry_or none rest = rest
entry_or (some entry) rest = some entry

unfoldable pub entry_at : Bytes → Option (Bytes → Bool) → List ArpCacheEntry → Option ArpCacheEntry
unfolding neighbour_entry
entry_at ip none entries = none
entry_at ip (some in_target) entries =
    if not (in_target ip) then none else neighbour_entry ip entries

unfoldable pub arp_cache_entry_for_ip : Bytes → List Target → Option ArpCacheEntry
unfolding entry_at entry_or
arp_cache_entry_for_ip ip [] = none
arp_cache_entry_for_ip ip (t ∷ targets) =
    entry_or (entry_at ip t.network t.neighbours) (arp_cache_entry_for_ip ip targets)
