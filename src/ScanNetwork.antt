-- ===== src/ScanNetwork.antt =====
-- scanNetwork in main.go, without its goroutines: the open ports by address, the discovery hits, the
-- ARP cache, the hosts and the second HTTP probe. The order in which results and hosts arrive is an
-- argument, and so are net.ParseIP, what the system's ARP table holds and what LAN discovery finds.
pub mod Gathered
pub mod Listed
pub mod Deep
pub mod Hosts
use ipscry.Common.{
  ℕ, Bool, Option, none, some, List, [], ◌∷◌, map, ltb, if◌then◌else◌, Go, done, Bytes,
}
use ipscry.Common.Text.{to_lower}
use ipscry.Common.Int.{minus_one}
use ipscry.Common.Maps.{find, put}
use ipscry.Common.Order.{sort_by}
use ipscry.Hosts.{PortResult, HostResult, ArpCacheEntry, DiscoveryHit}
use ipscry.Catalog.{PortEntry}
use ipscry.Macs.{Ouis}
use ipscry.Tui.{EnrichConfig}
use ipscry.Discovery.{merge_discovery_hosts}
use ipscry.Scan.{Network, PortScanResult, collect}
use ipscry.Enrich.{Lookups, enrich_host}
use ipscry.Ipv4.{less_address}
use ipscry.ArpCache.{Target, arp_cache_for_target}
use ipscry.DeepProbe.{run_deep_http_probe}

unfoldable pub sort_hosts : (Bytes → Option Bytes) → List HostResult → List HostResult
unfolding less_address sort_by
sort_hosts parse = sort_by (λ a b. less_address parse a.ip b.ip)

-- `for k, v := range m { out[k] = v }`
unfoldable pub put_each : {V : Type 0} → List (Bytes × V) → List (Bytes × V) → List (Bytes × V)
unfolding put
put_each [] out = out
put_each ((k, v) ∷ m) out = put_each m (put k v out)

-- The goroutine that runs LAN discovery on each target
unfoldable pub all_hits : List Target → List (Bytes × DiscoveryHit) → List (Bytes × DiscoveryHit)
unfolding put_each
all_hits [] hits = hits
all_hits (t ∷ targets) hits = all_hits targets (put_each t.discovered hits)

-- A network that is read, with what the ARP table holds then
abbrev pub Segment : Type 0
Segment = (Bytes → Bool) × List ArpCacheEntry

abbrev pub first_segment :
    Option (Bytes → Bool) → List ArpCacheEntry → Option (List Segment) → Option (List Segment)
first_segment (some in_target) entries (some rest) = some ((in_target, entries) ∷ rest)
first_segment _ entries _ = none

-- The networks of the targets; `none` where one is not read
unfoldable pub all_segments : List Target → Option (List Segment)
all_segments [] = some []
all_segments (t ∷ targets) = first_segment t.network t.neighbours (all_segments targets)

unfoldable pub merge_segments :
    List Segment
    → List (Bytes × DiscoveryHit)
    → List (Bytes × List PortResult)
    → List (Bytes × List PortResult)
unfolding merge_discovery_hosts
merge_segments [] hits by_ip = by_ip
merge_segments ((in_target, entries) ∷ segments) hits by_ip =
    merge_segments segments hits (merge_discovery_hosts in_target hits by_ip)

unfoldable pub all_neighbours :
    List Segment → List (Bytes × ArpCacheEntry) → List (Bytes × ArpCacheEntry)
unfolding arp_cache_for_target put_each
all_neighbours [] arp_by_ip = arp_by_ip
all_neighbours ((in_target, entries) ∷ segments) arp_by_ip =
    all_neighbours segments (put_each (arp_cache_for_target in_target entries) arp_by_ip)

-- The two maps that the ARP cache is written to: the entries of the dead, and the ports by address
pub record Dead : Type 0 where
  pub arp_dead : List (Bytes × ArpCacheEntry)
  pub by_ip : List (Bytes × List PortResult)

abbrev pub add_dead : Bytes → ArpCacheEntry → Option (List PortResult) → Dead → Dead
add_dead ip entry (some ports) d = record d { arp_dead = put ip entry d.arp_dead }
add_dead ip entry none d = record d {
  arp_dead = put ip entry d.arp_dead;
  by_ip = put ip [] d.by_ip;
}

-- The loop over the ARP entries; `live` is the map of the addresses before it
unfoldable pub list_dead :
    List (Bytes × List PortResult) → List (Bytes × ArpCacheEntry) → Dead → Dead
unfolding find put
list_dead live [] d = d
list_dead live ((ip, entry) ∷ arp_by_ip) d =
    let listed = list_dead live arp_by_ip (add_dead ip entry (find ip d.by_ip) d) in
    let skipped = list_dead live arp_by_ip d in
    elim (find ip live) [ some here ↦ skipped | none ↦ listed ]

-- `if enrich.arpCache`
unfoldable pub with_dead :
    Bool → List (Bytes × ArpCacheEntry) → List (Bytes × List PortResult) → Dead
unfolding list_dead
with_dead arp_cache arp_by_ip by_ip =
    let plain : Dead = record { arp_dead = []; by_ip = by_ip } in
    if arp_cache then list_dead by_ip arp_by_ip plain else plain

-- What is known of the addresses when the hosts are made
pub record Survey : Type 0 where
  pub hits : List (Bytes × DiscoveryHit)
  pub arp_by_ip : List (Bytes × ArpCacheEntry)
  pub dead : Dead

unfoldable pub survey_hits : Bool → List Target → List (Bytes × DiscoveryHit)
unfolding all_hits
survey_hits discovery targets = if discovery then all_hits targets [] else []

unfoldable pub survey :
    Bool → EnrichConfig → List PortScanResult → List Target → List Segment → Survey
unfolding collect survey_hits merge_segments all_neighbours with_dead
survey discovery enrich arrived targets segments =
    let hits = survey_hits discovery targets in
    let found = collect arrived [] in
    let by_ip = if discovery then merge_segments segments hits found else found in
    let arp_by_ip = all_neighbours segments [] in
    record { hits = hits; arp_by_ip = arp_by_ip; dead = with_dead enrich.arp_cache arp_by_ip by_ip }

-- The addresses that the monitor is told of
unfoldable pub enrich_ips : (Bytes → Option Bytes) → Survey → List Bytes
unfolding less_address sort_by
enrich_ips parse s = sort_by (less_address parse) (map (λ e. e.0) s.dead.by_ip)

module _ (net : Lookups) (lower : Bytes → Bytes) (ouis : Ouis) where
  -- `sort.Slice(openPorts, …)`, and the goroutine of an address
  unfoldable pub make_host : EnrichConfig → Bool → Survey → Bytes × List PortResult → HostResult
  unfolding enrich_host sort_by
  make_host enrich discovery s (ip, ports) =
      enrich_host net lower ouis ip (sort_by (λ p q. ltb p.port q.port) ports) enrich discovery
        s.arp_by_ip s.dead.arp_dead s.hits minus_one

  unfoldable pub make_hosts : EnrichConfig → Bool → Survey → List HostResult
  unfolding make_host
  make_hosts enrich discovery s = map (make_host enrich discovery s) s.dead.by_ip

-- What a scan runs in
pub record Surroundings : Type 0 where
  pub parse_ip : Bytes → Option Bytes
  pub to_lower : Bytes → Bytes
  pub unescape : Bytes → Bytes
  pub lookups : Lookups
  pub network : Network
  pub port_entries : List (ℕ × PortEntry)
  pub ouis : Ouis

-- The hosts, in the order in which the goroutines add them, sorted and probed again
unfoldable pub finish_hosts : Surroundings → Bool → List HostResult → Go (List HostResult)
unfolding sort_hosts run_deep_http_probe
finish_hosts env timed hosts =
    run_deep_http_probe env.to_lower env.unescape env.network env.port_entries timed
      (sort_hosts env.parse_ip hosts)

unfoldable pub surveyed_hosts :
    Surroundings
    → EnrichConfig
    → Bool
    → List PortScanResult
    → List Target
    → List Segment
    → List HostResult
unfolding survey make_hosts
surveyed_hosts env enrich discovery arrived targets segments =
    make_hosts env.lookups env.to_lower env.ouis enrich discovery
      (survey discovery enrich arrived targets segments)

-- `order` is the order in which the goroutines finish.
unfoldable pub scan_network :
    Surroundings
    → (List HostResult → List HostResult)
    → Bool
    → EnrichConfig
    → Bool
    → List PortScanResult
    → List Target
    → Go (List HostResult)
unfolding all_segments surveyed_hosts finish_hosts
scan_network env order timed enrich discovery arrived targets = elim (all_segments targets) [
  | none ↦ done []
  | some segments ↦
      finish_hosts env timed (order (surveyed_hosts env enrich discovery arrived targets segments))
]
