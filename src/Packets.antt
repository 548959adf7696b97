-- ===== src/Packets.antt =====
-- The handlers of discoverMDNS, discoverLLMNR, discoverSSDP and discoverWSD, in mdns.go, llmnr.go, ssdp.go
-- and wsd.go: what each makes of a packet that arrives. The sockets are outside, and `strings.ToLower` and
-- `strings.ToUpper` on any text are arguments.
use ipscry.Common.{
  ℕ, Bool, not, ◌&&◌, ◌||◌, Option, none, some, List, [], ◌∷◌, ◌==◌, if◌then◌else◌, length, Go,
  done, ◌>>=◌, Bytes,
}
use ipscry.Common.Text.{codes, has_suffix, trim_suffix, contains}
use ipscry.Common.Maps.{find, put}
use ipscry.Hosts.{DiscoveryHit, blank_hit, is_empty}
use ipscry.Dns.{
  DnsRecord, DnsPacket, dns_type_a, dns_type_aaaa, dns_type_ptr, dns_type_srv, parse_dns_packet,
}
use ipscry.Dns.Records.{dns_record_ipv4, dns_record_ipv6, dns_record_name}
use ipscry.Upnp.{first_non_empty, parse_wsd_response}
use ipscry.Ssdp.{SsdpResponse, parse_ssdp_response}
use ipscry.Discovery.{append_source, append_unique_strings, merge_discovery_hit, or_else_text}

abbrev pub Hits : Type 0
Hits = List (Bytes × DiscoveryHit)

abbrev pub or_blank : Option DiscoveryHit → DiscoveryHit
or_blank none = blank_hit
or_blank (some hit) = hit

-- `hits[ip]`
unfoldable pub hit_of : Bytes → Hits → DiscoveryHit
unfolding find
hit_of ip hits = or_blank (find ip hits)

-- Whether a name is a service's
abbrev pub is_service : Bytes → Bool
is_service name = contains (codes "._tcp.") name || contains (codes "._udp.") name

-- `map` over the values of a Go map
unfoldable pub map_hits : (DiscoveryHit → DiscoveryHit) → Hits → Hits
map_hits f [] = []
map_hits f ((ip, hit) ∷ hits) = (ip, f hit) ∷ map_hits f hits

module _ (lower : Bytes → Bytes) where
  -- The first fields of a hit that a protocol finds
  unfoldable pub with_source : Bytes → Bytes → DiscoveryHit → DiscoveryHit
  unfolding append_source
  with_source ip protocol hit = record hit {
    ip = ip;
    sources = append_source lower hit.sources (protocol ∷ []);
  }

  -- An address record, in discoverMDNS
  unfoldable pub with_name : Bytes → DiscoveryHit → DiscoveryHit
  unfolding append_unique_strings has_suffix contains
  with_name name hit = record hit {
    mdns_name =
        if has_suffix (codes ".local") (lower name) && is_empty hit.mdns_name
        then name
        else hit.mdns_name;
    mdns_services =
        if is_service name
        then append_unique_strings lower hit.mdns_services (name ∷ [])
        else hit.mdns_services;
  }

  unfoldable pub mdns_address : DnsRecord → Hits → Hits
  unfolding dns_record_ipv4 hit_of with_source with_name put
  mdns_address rec hits =
      let ip = dns_record_ipv4 rec in
      if length ip == 0
      then hits
      else put ip
          (with_name (trim_suffix (codes ".") rec.name)
            (with_source ip (codes "mdns") (hit_of ip hits)))
          hits

  -- A name of a service goes to each hit of the packet so far.
  unfoldable pub mdns_service : Bytes → Hits → Hits
  unfolding map_hits append_unique_strings contains
  mdns_service name hits =
      if not (length name == 0) && is_service name
      then map_hits
          (λ hit. record hit {
            mdns_services = append_unique_strings lower hit.mdns_services (name ∷ []);
          })
          hits
      else hits

  unfoldable pub mdns_record : ℕ → Bytes → DnsRecord → Hits → Go Hits
  unfolding mdns_address dns_record_name mdns_service
  mdns_record fuel packet rec hits =
      let named = do name ← dns_record_name fuel packet rec; done (mdns_service name hits)
      in if rec.rtype == dns_type_a
        then done (mdns_address rec hits)
        else if rec.rtype == dns_type_ptr || rec.rtype == dns_type_srv
        then named
        else done hits

  unfoldable pub mdns_records : ℕ → Bytes → List DnsRecord → Hits → Go Hits
  unfolding mdns_record
  mdns_records fuel packet [] hits = done hits
  mdns_records fuel packet (rec ∷ records) hits = do
    hits' ← mdns_record fuel packet rec hits
    mdns_records fuel packet records hits'

  -- `hits[ip] = mergeDiscoveryHit(hits[ip], hit)`
  unfoldable pub merge_local : Hits → Hits → Hits
  unfolding merge_discovery_hit hit_of put
  merge_local [] hits = hits
  merge_local ((ip, hit) ∷ found) hits =
      merge_local found (put ip (merge_discovery_hit lower (hit_of ip hits) hit) hits)

  -- `none` where parseDNSPacket gives false
  unfoldable pub mdns_body : ℕ → Bytes → Hits → Option DnsPacket → Go Hits
  unfolding mdns_records merge_local
  mdns_body fuel packet hits none = done hits
  mdns_body fuel packet hits (some pkt) = do
    found ← mdns_records fuel packet pkt.records []
    done (merge_local found hits)

  unfoldable pub mdns_packet : ℕ → Bytes → Hits → Go Hits
  unfolding mdns_body parse_dns_packet
  mdns_packet fuel packet hits = do
    pkt ← parse_dns_packet fuel packet
    mdns_body fuel packet hits pkt

  -- discoverMDNSFromPacket
  unfoldable pub mdns_from_record : DnsRecord → Hits → Hits
  unfolding dns_record_ipv4 has_suffix with_source hit_of put
  mdns_from_record rec hits =
      let ip = dns_record_ipv4 rec in
      let name = trim_suffix (codes ".") rec.name in
      if not (rec.rtype == dns_type_a)
        || (length ip == 0 || not (has_suffix (codes ".local") (lower name)))
      then hits
      else put ip (record (with_source ip (codes "mdns") (hit_of ip hits)) { mdns_name = name })
          hits

  unfoldable pub from_records : (DnsRecord → Hits → Hits) → List DnsRecord → Hits → Hits
  from_records add [] hits = hits
  from_records add (rec ∷ records) hits = from_records add records (add rec hits)

  unfoldable pub discover_from_packet : (DnsRecord → Hits → Hits) → ℕ → Bytes → Go Hits
  unfolding from_records parse_dns_packet
  discover_from_packet add fuel packet = do
    pkt ← parse_dns_packet fuel packet
    done (elim pkt [ none ↦ [] | some p ↦ from_records add p.records [] ])

  unfoldable pub discover_mdns_from_packet : ℕ → Bytes → Go Hits
  unfolding discover_from_packet mdns_from_record
  discover_mdns_from_packet = discover_from_packet mdns_from_record

  -- discoverLLMNRFromPacket
  unfoldable pub llmnr_from_record : DnsRecord → Hits → Hits
  unfolding dns_record_ipv4 with_source hit_of put
  llmnr_from_record rec hits =
      let ip = dns_record_ipv4 rec in
      let name = trim_suffix (codes ".") rec.name in
      if not (rec.rtype == dns_type_a) || (length ip == 0 || length name == 0)
      then hits
      else put ip (record (with_source ip (codes "llmnr") (hit_of ip hits)) { llmnr_name = name })
          hits

  unfoldable pub discover_llmnr_from_packet : ℕ → Bytes → Go Hits
  unfolding discover_from_packet llmnr_from_record
  discover_llmnr_from_packet = discover_from_packet llmnr_from_record

  -- discoverLLMNR: the names of a packet by address, and what they add to the hits
  unfoldable pub llmnr_ip : (Bytes → Bytes) → DnsRecord → Bytes
  unfolding dns_record_ipv4 dns_record_ipv6
  llmnr_ip ipv6_text rec =
      let ip = dns_record_ipv4 rec in
      if length ip == 0 && rec.rtype == dns_type_aaaa then dns_record_ipv6 ipv6_text rec else ip

  unfoldable pub llmnr_names :
      (Bytes → Bytes) → List DnsRecord → List (Bytes × Bytes) → List (Bytes × Bytes)
  unfolding llmnr_ip put
  llmnr_names ipv6_text [] names = names
  llmnr_names ipv6_text (rec ∷ records) names =
      let ip = llmnr_ip ipv6_text rec in
      let name = trim_suffix (codes ".") rec.name in
      llmnr_names ipv6_text records (
        if (not (rec.rtype == dns_type_a) && not (rec.rtype == dns_type_aaaa))
          || (length ip == 0 || length name == 0)
        then names
        else put ip name names)

  unfoldable pub add_names : List (Bytes × Bytes) → Hits → Hits
  unfolding with_source hit_of put
  add_names [] hits = hits
  add_names ((ip, name) ∷ names) hits =
      let hit = with_source ip (codes "llmnr") (hit_of ip hits) in
      add_names names
        (put ip (record hit { llmnr_name = or_else_text lower hit.llmnr_name name }) hits)

  unfoldable pub llmnr_packet : (Bytes → Bytes) → ℕ → Bytes → Hits → Go Hits
  unfolding llmnr_names add_names parse_dns_packet
  llmnr_packet ipv6_text fuel packet hits = do
    pkt ← parse_dns_packet fuel packet
    done (elim pkt [ none ↦ hits | some p ↦ add_names (llmnr_names ipv6_text p.records []) hits ])

  -- The handler of discoverSSDP; `ip` is what hostAddrIP gives for the sender.
  unfoldable pub ssdp_hit : SsdpResponse → DiscoveryHit → DiscoveryHit
  unfolding first_non_empty
  ssdp_hit r hit = record hit {
    ssdp_server = or_else_text lower hit.ssdp_server r.server;
    upnp_type = or_else_text lower hit.upnp_type (first_non_empty (r.st ∷ r.usn ∷ []));
    upnp_location = or_else_text lower hit.upnp_location r.location;
  }

  unfoldable pub ssdp_packet : (Bytes → Bytes) → Bytes → Bytes → Hits → Hits
  unfolding parse_ssdp_response ssdp_hit with_source hit_of put
  ssdp_packet upper ip packet hits =
      if length ip == 0
      then hits
      else put ip
          (ssdp_hit (parse_ssdp_response upper packet)
            (with_source ip (codes "ssdp") (hit_of ip hits)))
          hits

  -- The handler of discoverWSD; `matches` is what encoding/xml finds in the packet.
  unfoldable pub wsd_hit : List Bytes × List Bytes × List Bytes → DiscoveryHit → DiscoveryHit
  unfolding append_unique_strings
  wsd_hit (types, xaddrs, scopes) hit = record hit {
    wsd_types = append_unique_strings lower hit.wsd_types types;
    wsd_xaddrs = append_unique_strings lower hit.wsd_xaddrs xaddrs;
    wsd_scopes = append_unique_strings lower hit.wsd_scopes scopes;
  }

  unfoldable pub wsd_packet : List (Bytes × Bytes × Bytes) → Bytes → Bytes → Hits → Go Hits
  unfolding parse_wsd_response wsd_hit with_source hit_of put
  wsd_packet matches ip packet hits = do
    found ← parse_wsd_response lower matches packet
    done (
        if length ip == 0
        then hits
        else put ip (wsd_hit found (with_source ip (codes "wsd") (hit_of ip hits))) hits)
