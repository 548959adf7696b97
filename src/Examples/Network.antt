-- ===== src/Examples/Network.antt =====
-- The theorems on a whole scan at a concrete network.
use ipscry.Common.{
  ℕ, ◌-◌, ◌/◌, ◌^◌, ◌<◌, ◌≡◌, refl, Bool, true, false, Option, none, some, List, [], ◌∷◌, arith,
  ltb, ◌==◌, done, Bytes,
}
use ipscry.Common.Text.{codes, text_eq, has_prefix, cut, to_lower, to_upper}
use ipscry.Common.Trim.{trim_space}
use mathlib.Core.List.{Permᴰ}
use mathlib.Core.List.Permᴰ
use ipscry.Common.Int.{pos}
use ipscry.Common.Order.{any, IsStrict}
use ipscry.Hosts.{HostResult, ArpCacheEntry, DiscoveryHit}
use ipscry.Ipv4.Value.{to_ip}
use ipscry.Macs.{Ouis}
use ipscry.Tui.{EnrichConfig}
use ipscry.Scan.{http_error, tls_error, Network, PortScanResult}
use ipscry.Enrich.{Lookups}
use ipscry.ArpCache.{Target}
use ipscry.DeepProbe.{run_deep_http_probe}
use ipscry.ScanNetwork.{
  Segment, Surroundings, all_segments, finish_hosts, surveyed_hosts, sort_hosts, scan_network,
}
use ipscry.ScanNetwork.Listed.{is_listed}
use ipscry.ScanNetwork.Deep.{Reader, ips_of}
use ipscry.Args.{DiscoveryConfig}
use ipscry.Ssdp.{split_lines, read_line, parse_ssdp_response}
use ipscry.Ssdp.Headers.{first_value, parse_ssdp_response-first_value}
use ipscry.Packets.{Hits}
use ipscry.Lan.{Answers, partials, merge_partials}
use ipscry.Common.Maps.{find, put, has}
use ipscry.Session.{begin_discover}
use ipscry.Session.Steps.{World, IsWatched, looked_up, here, and_then, begin_one, Watched-IsWatched}
use ipscry.Examples.Table.{a_table}
use ipscry.ScanNetwork.Hosts.{scan_network-order, scan_network-ips}

-- An address is written as its last byte.
abbrev parse_ip : Bytes → Option Bytes
parse_ip (d ∷ []) = some (to_ip d)
parse_ip _ = none

abbrev is_short : Bytes → Bool
is_short (d ∷ []) = ltb d 256
is_short _ = false

abbrev last_byte : Bytes → ℕ
last_byte (d ∷ _) = d
last_byte [] = 0

short_bound : (k : Bytes) → is_short k ≡ true → last_byte k < 2 ^ 32
short_bound [] h = cc
short_bound (d ∷ []) h = ground arith
short_bound (d ∷ e ∷ r) h = cc

short_reads : (k : Bytes) → is_short k ≡ true → parse_ip k ≡ some (to_ip (last_byte k))
short_reads [] h = cc
short_reads (d ∷ []) h = refl
short_reads (d ∷ e ∷ r) h = cc

short_apart :
    (j k : Bytes) → is_short j ≡ true → is_short k ≡ true → last_byte j ≡ last_byte k → j ≡ k
short_apart [] k h h' e = cc
short_apart (d ∷ []) [] h h' e = cc
short_apart (d ∷ []) (c ∷ []) h h' e = cc (e)
short_apart (d ∷ []) (c ∷ c' ∷ r) h h' e = cc
short_apart (d ∷ d' ∷ r) k h h' e = cc

abbrev reader : Reader parse_ip
reader = record {
  plain = is_short;
  value = last_byte;
  bound = short_bound;
  reads = short_reads;
  apart = short_apart;
}

abbrev same_text : Bytes → Bytes
same_text s = s

abbrev lookups : Lookups
lookups = record {
  reverse_lookup = λ ip. codes "host";
  smb_hostname = λ ip. [];
  netbios_name = λ ip. [];
  snmp_get = λ ip community. ([], []);
  lookup_mac = λ ip. [];
  ping_host = λ ip. some (pos 3);
  arp_cache_entry = λ ip. none;
}

abbrev network : Network
network = record {
  http_get = λ ip port. http_error (codes "timeout");
  resolve = λ ip port loc. loc;
  tls_dial = λ ip port. tls_error (codes "timeout");
  tcp_dial = λ ip port. port == 22;
  banner = λ ip port. [];
  latency = λ ip port. pos 4;
}

abbrev no_vendors : Ouis
no_vendors = record { oui24 = []; oui28 = []; oui36 = [] }

abbrev env : Surroundings
env = record {
  parse_ip = parse_ip;
  to_lower = to_lower;
  unescape = same_text;
  lookups = lookups;
  network = network;
  port_entries = [];
  ouis = no_vendors;
}

abbrev enrich : EnrichConfig
enrich = record {
  snmp_community = [];
  arp_cache = true;
  target_cidrs = codes "10.0.0.0/24" ∷ [];
  tui_arp_detail = false;
}

abbrev at_nine : Bytes
at_nine = 9 ∷ []

abbrev at_three : Bytes
at_three = 3 ∷ []

abbrev at_seven : Bytes
at_seven = 7 ∷ []

abbrev at_five : Bytes
at_five = 5 ∷ []

abbrev open_at : Bytes → PortScanResult
open_at ip = record {
  ip = ip;
  port = record {
    port = 22;
    service = codes "ssh";
    vendors = [];
    banner = [];
    http_status = [];
    http_server = [];
    http_title = [];
    http_redirect = [];
    tls_subject = [];
    probe_error = [];
  };
  latency_ms = pos 4;
}

abbrev hit_at : Bytes → DiscoveryHit
hit_at ip = record {
  ip = ip;
  sources = codes "mdns" ∷ [];
  mdns_name = [];
  mdns_services = [];
  llmnr_name = [];
  ssdp_server = [];
  upnp_type = [];
  upnp_location = [];
  upnp_friendly = [];
  upnp_model = [];
  wsd_types = [];
  wsd_xaddrs = [];
  wsd_scopes = [];
}

abbrev neighbour : ArpCacheEntry
neighbour = record {
  ip = at_seven;
  mac = codes "00:11:22:33:44:55";
  kind = codes "dynamic";
  if_index = 4;
  if_alias = [];
}

-- The addresses of the network
abbrev in_net : Bytes → Bool
in_net k = is_short k

abbrev target : Target
target = record {
  network = some in_net;
  neighbours = neighbour ∷ [];
  discovered = (at_five, hit_at at_five) ∷ [];
}

abbrev arrived : List PortScanResult
arrived = open_at at_nine ∷ open_at at_three ∷ open_at at_nine ∷ []

abbrev segments : List Segment
segments = (in_net, neighbour ∷ []) ∷ []

-- The goroutine of the second host is faster.
abbrev second_first : List HostResult → List HostResult
second_first (a ∷ b ∷ l) = b ∷ a ∷ l
second_first l = l

second_first-perm : (l : List HostResult) → Permᴰ l (second_first l)
second_first-perm [] = Permᴰ.nil
second_first-perm (a ∷ []) = Permᴰ.refl (a ∷ [])
second_first-perm (a ∷ b ∷ l) = Permᴰ.swap refl refl

listed_short :
    (k : Bytes) → is_listed true enrich arrived (target ∷ []) segments k ≡ true → is_short k ≡ true
unfolding text_eq ipscry.Common.Maps.has
listed_short [] h = cc
listed_short (d ∷ []) h = ground arith
listed_short (d ∷ e ∷ r) h = ground arith

read : all_segments (target ∷ []) ≡ some segments
unfolding all_segments
read = refl

scan_network-order_example :
    scan_network env second_first true enrich true arrived (target ∷ [])
    ≡ scan_network env (λ l. l) true enrich true arrived (target ∷ [])
scan_network-order_example =
    scan_network-order env enrich true true arrived (target ∷ []) segments second_first reader
      listed_short second_first-perm read

abbrev hosts_by_ip : List HostResult
hosts_by_ip =
    sort_hosts parse_ip
      (second_first (surveyed_hosts env enrich true arrived (target ∷ []) segments))

scanned : scan_network env second_first false enrich true arrived (target ∷ []) ≡ done hosts_by_ip
unfolding scan_network all_segments finish_hosts run_deep_http_probe
scanned = refl

scan_network-ips_example :
    IsStrict last_byte (ips_of hosts_by_ip)
    × ((k : Bytes)
        → any (λ a. text_eq a k) (ips_of hosts_by_ip)
          ≡ is_listed true enrich arrived (target ∷ []) segments k)
scan_network-ips_example =
    scan_network-ips env enrich true false arrived (target ∷ []) segments second_first reader
      listed_short second_first-perm read hosts_by_ip scanned

-- Two protocols that are on, of which the second finishes first
abbrev protocols : DiscoveryConfig
protocols = record { enabled = true; ssdp = false; mdns = true; llmnr = true; wsd = false }

abbrev answers : Answers
answers = record {
  ssdp_found = [];
  mdns_found = (at_five, hit_at at_five) ∷ (at_nine, hit_at at_nine) ∷ [];
  llmnr_found = (at_five, record (hit_at at_five) { sources = codes "llmnr" ∷ [] }) ∷ [];
  wsd_found = [];
}

abbrev swap_two : List Hits → List Hits
swap_two (a ∷ b ∷ l) = b ∷ a ∷ l
swap_two l = l

abbrev no_page : Bytes → Option Bytes
no_page location = none

abbrev union : Hits
union = merge_partials to_lower in_net (swap_two (partials protocols answers)) []

abbrev response : Bytes
response = codes "HTTP/1.1 200 OK\r\nServer: UPnP/1.0\r\nST: ssdp:all\r\nserver: other\r\n\r\n"

parse_ssdp_response_runs : (parse_ssdp_response to_upper response).server ≡ codes "UPnP/1.0"
unfolding parse_ssdp_response text_eq to_upper trim_space cut has_prefix
    ipscry.Sanitize.sanitize_one_line
parse_ssdp_response_runs = refl

response_prefix : has_prefix (codes "HTTP/1.") response ≡ true
unfolding has_prefix
response_prefix = refl

parse_ssdp_response-first_value_example :
    ((parse_ssdp_response to_upper response).server
      ≡ first_value (read_line to_upper) (codes "SERVER") (split_lines [] response))
    × ((parse_ssdp_response to_upper response).st
        ≡ first_value (read_line to_upper) (codes "ST") (split_lines [] response))
    × ((parse_ssdp_response to_upper response).location
        ≡ first_value (read_line to_upper) (codes "LOCATION") (split_lines [] response))
    × ((parse_ssdp_response to_upper response).usn
        ≡ first_value (read_line to_upper) (codes "USN") (split_lines [] response))
parse_ssdp_response-first_value_example =
    parse_ssdp_response-first_value to_upper response response_prefix

-- A table without rows, and an address that is looked up twice
abbrev idle : World
idle = record { session = record { table = a_table []; pending = [] }; running = [] }

idle-IsWatched : IsWatched idle
unfolding has
idle-IsWatched = record { rows_distinct = tt; running_apart = tt; pending_running = λ k. refl }

Watched-IsWatched_example :
    IsWatched (begin_one 8 at_five (pos 3) (begin_one 7 at_five (pos 3) idle))
Watched-IsWatched_example =
    Watched-IsWatched parse_ip idle (begin_one 8 at_five (pos 3) (begin_one 7 at_five (pos 3) idle))
      (and_then (begin_one 7 at_five (pos 3) idle) _
        (and_then idle _ here (looked_up 7 at_five (pos 3) idle))
        (looked_up 8 at_five (pos 3) (begin_one 7 at_five (pos 3) idle)))
      idle-IsWatched

begin_one_runs :
    (begin_one 8 at_five (pos 3) (begin_one 7 at_five (pos 3) idle)).running ≡ at_five ∷ []
unfolding begin_one begin_discover find put text_eq
begin_one_runs = refl
