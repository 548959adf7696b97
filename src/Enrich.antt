-- ===== src/Enrich.antt =====
-- The record of a host in main.go: resolveHostnameWithSource, enrichHost and fillARPFromCache, and what
-- tui.go asks of a rescanned host: shouldIncludeHost and buildARPDeadByIP. What the network and the
-- system answer is an argument.
pub mod Keeps
use ipscry.Common.{
  ℕ, ◌+◌, Bool, true, false, not, ◌&&◌, ◌||◌, Option, none, some, List, [], ◌∷◌, ◌++◌, ◌==◌,
  if◌then◌else◌, length, Bytes,
}
use ipscry.Common.Text.{codes, text_eq}
use ipscry.Common.Trim.{trim_space}
use ipscry.Common.Int.{ℤ, pos, negsuc}
use ipscry.Common.Maps.{find}
use ipscry.Hosts.{PortResult, HostResult, ArpCacheEntry, DiscoveryHit, is_empty}
use ipscry.Discovery.{
  append_source, discovery_host_status, discovery_guess_text, discovery_hostname_fallback,
  apply_discovery_fields,
}
use ipscry.Guess.{guess_device}
use ipscry.Tui.{EnrichConfig}
use ipscry.Tui.Probe.{apply_arp_from_cache}
use ipscry.Macs.{Ouis, mac_vendor}

-- What is asked about an address: its names in DNS, over SMB and NetBIOS; what snmpGet returns for a
-- community; the MAC that the system knows; the answer to a ping; and the entry of the ARP cache for
-- the targets. The time-outs belong to them.
pub record Lookups : Type 0 where
  pub reverse_lookup : Bytes → Bytes
  pub smb_hostname : Bytes → Bytes
  pub netbios_name : Bytes → Bytes
  pub snmp_get : Bytes → Bytes → Bytes × Bytes
  pub lookup_mac : Bytes → Bytes
  pub ping_host : Bytes → Option ℤ
  pub arp_cache_entry : Bytes → Option ArpCacheEntry

-- The closure `hasPort`
unfoldable pub port_is_open : ℕ → List PortResult → Bool
port_is_open port [] = false
port_is_open port (p ∷ ports) = p.port == port || port_is_open port ports

module _ (net : Lookups) where
  unfoldable pub netbios_step : Bytes → Bytes × Bytes
  netbios_step ip =
      let name = net.netbios_name ip in if length name == 0 then ([], []) else (name, codes "nbns")

  unfoldable pub resolve_hostname_with_source : Bytes → List PortResult → Bytes × Bytes
  unfolding port_is_open netbios_step
  resolve_hostname_with_source ip ports =
      let ptr = net.reverse_lookup ip in
      let smb = net.smb_hostname ip in
      if not (length ptr == 0)
      then (ptr, codes "ptr")
      else if (port_is_open 445 ports || port_is_open 139 ports) && not (length smb == 0)
      then (smb, codes "smb")
      else netbios_step ip

  -- `latency < 0`, and then a ping
  unfoldable pub ping_latency : Bytes → ℤ → ℤ
  ping_latency ip (pos n) = pos n
  ping_latency ip (negsuc n) = elim (net.ping_host ip) [ none ↦ negsuc n | some ms ↦ ms ]

  module _ (lower : Bytes → Bytes) (ouis : Ouis) where
    unfoldable pub vendor_of : Bytes → Bytes
    vendor_of mac = if length mac == 0 then [] else mac_vendor ouis mac

    -- `if host.MAC != "" && host.MACVendor == ""`
    abbrev pub fill_vendor : HostResult → HostResult
    fill_vendor host =
        if not (length host.mac == 0) && length host.mac_vendor == 0
        then record host { mac_vendor = mac_vendor ouis host.mac }
        else host

    unfoldable pub fill_arp_from_cache : HostResult → HostResult
    unfolding apply_arp_from_cache
    fill_arp_from_cache host = elim (net.arp_cache_entry host.ip) [
      | none ↦ host
      | some entry ↦ fill_vendor (apply_arp_from_cache host entry)
    ]

    abbrev no_hit : DiscoveryHit
    no_hit = record {
      ip = [];
      sources = [];
      mdns_name = [];
      mdns_services = [];
      llmnr_name = [];
      ssdp_server = [];
      upnp_type = [];
      upnp_location = [];
      upnp_friendly = [];
      upnp_model = [];
      wsd_types = [];
      wsd_xaddrs = [];
      wsd_scopes = [];
    }

    abbrev no_entry : ArpCacheEntry
    no_entry = record { ip = []; mac = []; kind = []; if_index = 0; if_alias = [] }

    -- The hit for the address: it gets the address where a protocol found it
    unfoldable pub hit_for : Bytes → Option DiscoveryHit → DiscoveryHit
    hit_for ip none = no_hit
    hit_for ip (some hit) =
        if is_empty hit.ip && not (is_empty hit.sources) then record hit { ip = ip } else hit

    -- The two SNMP values, which are empty where no community is set
    unfoldable pub snmp_names : EnrichConfig → Bytes → Bytes × Bytes
    snmp_names enrich ip =
        if length enrich.snmp_community == 0
        then ([], [])
        else net.snmp_get ip enrich.snmp_community

    unfoldable pub enrich_host :
        Bytes
        → List PortResult
        → EnrichConfig
        → Bool
        → List (Bytes × ArpCacheEntry)
        → List (Bytes × ArpCacheEntry)
        → List (Bytes × DiscoveryHit)
        → ℤ
        → HostResult
    unfolding find resolve_hostname_with_source append_source snmp_names hit_for vendor_of
        ping_latency guess_device fill_arp_from_cache
    enrich_host ip ports enrich discovery arp_by_ip arp_dead_by_ip hits latency =
        let found = hit_for ip (find ip hits) in
        let (resolved, source) = resolve_hostname_with_source ip ports in
        let (sys_name, sys_descr) = snmp_names enrich ip in
        let hostname =
          discovery_hostname_fallback (if length resolved == 0 then sys_name else resolved) found in
        let hit =
          if text_eq source (codes "nbns")
          then record found { sources = append_source lower found.sources (codes "nbns" ∷ []) }
          else found in
        let entry : ArpCacheEntry = elim (find ip arp_by_ip) [ none ↦ no_entry | some e ↦ e ] in
        let mac = if length entry.mac == 0 then net.lookup_mac ip else entry.mac in
        let status =
          discovery_host_status enrich.arp_cache discovery ports hit (find ip arp_dead_by_ip) in
        let text = trim_space (sys_descr ++ (codes " " ++ discovery_guess_text hit)) in
        let guess =
          if text_eq status (codes "arp") then codes "offline" else guess_device lower ports text in
        fill_arp_from_cache (
          apply_discovery_fields
            (record {
              ip = ip;
              mac = mac;
              mac_vendor = vendor_of mac;
              latency_ms = ping_latency ip latency;
              arp_type = entry.kind;
              arp_if_index = entry.if_index;
              arp_if_alias = entry.if_alias;
              hostname = hostname;
              sys_name = sys_name;
              sys_descr = sys_descr;
              discovery_sources = [];
              mdns_name = [];
              mdns_services = [];
              llmnr_name = [];
              ssdp_server = [];
              upnp_type = [];
              upnp_location = [];
              upnp_friendly = [];
              upnp_model = [];
              wsd_types = [];
              wsd_xaddrs = [];
              wsd_scopes = [];
              open_ports = ports;
              guess = guess;
              status = status;
            })
            hit)

unfoldable pub should_include_host :
    List PortResult → Bool → Bool → Option ArpCacheEntry → Option DiscoveryHit → Bool
should_include_host ports discovery arp_cache entry hit =
    not (is_empty ports)
    || ((discovery
          && elim hit [ none ↦ false | some h ↦ not (is_empty h.ip) || not (is_empty h.sources) ])
        || (arp_cache && elim entry [ none ↦ false | some e ↦ true ]))

unfoldable pub build_arp_dead_by_ip :
    List (Bytes × ArpCacheEntry) → List (Bytes × Unit {0}) → List (Bytes × ArpCacheEntry)
unfolding find
build_arp_dead_by_ip [] live = []
build_arp_dead_by_ip ((ip, entry) ∷ arp_by_ip) live =
    let dead = build_arp_dead_by_ip arp_by_ip live in
    elim (find ip live) [ none ↦ (ip, entry) ∷ dead | some here ↦ dead ]
