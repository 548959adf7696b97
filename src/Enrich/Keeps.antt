-- ===== src/Enrich/Keeps.antt =====
-- What enrichHost keeps of what it is given.
use ipscry.Common.{
  ◌≡◌, refl, inl, inr, Bool, not, ◌&&◌, List, ◌==◌, Bool-cases, Option-cases, length, Bytes,
}
use ipscry.Common.Int.{ℤ}
use ipscry.Hosts.{PortResult, HostResult, ArpCacheEntry, DiscoveryHit, is_empty}
use ipscry.Tui.{EnrichConfig}
use ipscry.Tui.Probe.{apply_arp_from_cache}
use ipscry.Discovery.{apply_discovery_fields}
use ipscry.Macs.{Ouis}
use ipscry.Enrich.{Lookups, fill_vendor, fill_arp_from_cache, enrich_host}

-- The host is the one of the address, with the open ports that were found.
abbrev pub IsHostOf : Bytes → List PortResult → HostResult → Type 0
IsHostOf ip ports host = (host.ip ≡ ip) × (host.open_ports ≡ ports)

fields-IsHostOf :
    (ip : Bytes) (ports : List PortResult) (host : HostResult) (hit : DiscoveryHit)
    → IsHostOf ip ports host
    → IsHostOf ip ports (apply_discovery_fields host hit)
unfolding apply_discovery_fields
fields-IsHostOf ip ports host hit h = elim (Bool-cases (is_empty hit.ip)) [
  | inl e ↦ rw (e) h
  | inr e ↦ rw (e) h
]

module _ (net : Lookups) (lower : Bytes → Bytes) (ouis : Ouis) where
  vendor-IsHostOf :
      (ip : Bytes) (ports : List PortResult) (host : HostResult)
      → IsHostOf ip ports host
      → IsHostOf ip ports (fill_vendor net lower ouis host)
  vendor-IsHostOf ip ports host h =
      elim (Bool-cases (not (length host.mac == 0) && length host.mac_vendor == 0)) [
        | inl e ↦ rw (e) h
        | inr e ↦ rw (e) h
      ]

  arp-IsHostOf :
      (ip : Bytes) (ports : List PortResult) (host : HostResult) (entry : ArpCacheEntry)
      → IsHostOf ip ports host
      → IsHostOf ip ports (apply_arp_from_cache host entry)
  unfolding apply_arp_from_cache
  arp-IsHostOf ip ports host entry h = h

  fill-IsHostOf :
      (ip : Bytes) (ports : List PortResult) (host : HostResult)
      → IsHostOf ip ports host
      → IsHostOf ip ports (fill_arp_from_cache net lower ouis host)
  unfolding fill_arp_from_cache
  fill-IsHostOf ip ports host h = elim (Option-cases (net.arp_cache_entry host.ip)) [
    | inl e ↦ rw (e, fill_arp_from_cache) h
    | inr (entry, e) ↦
        rw (e, fill_arp_from_cache)
          (vendor-IsHostOf ip ports (apply_arp_from_cache host entry)
            (arp-IsHostOf ip ports host entry h))
  ]

  -- enrichHost makes the row of the address that it is given, with the open ports that it is given, whatever
  -- the network, the ARP cache and the discovery protocols say.
  pub enrich_host-IsHostOf :
      (ip : Bytes) (ports : List PortResult) (enrich : EnrichConfig) (discovery : Bool)
      (arp_by_ip arp_dead_by_ip : List (Bytes × ArpCacheEntry)) (hits : List (Bytes × DiscoveryHit))
      (latency : ℤ)
      → IsHostOf ip ports (
          enrich_host net lower ouis ip ports enrich discovery arp_by_ip arp_dead_by_ip hits
            latency)
  unfolding enrich_host
  enrich_host-IsHostOf ip ports enrich discovery arp_by_ip arp_dead_by_ip hits latency =
      fill-IsHostOf ip ports _ (fields-IsHostOf ip ports _ _ (refl, refl))
