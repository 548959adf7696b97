-- ===== src/Csv.antt =====
-- The CSV of main.go: the header and the rows of writeCSV, with hostCSVRow and formatLatency. The
-- writer of encoding/csv is left out: a file is its list of records.
pub mod Rows
use ipscry.Common.{
  ℕ, zero, suc, ◌+◌, ◌/◌, ◌%◌, List, [], ◌∷◌, ◌++◌, map, ltb, ◌==◌, if◌then◌else◌, Bytes,
}
use ipscry.Common.Text.{codes, join}
use ipscry.Common.Int.{ℤ, pos, negsuc}
use ipscry.Hosts.{PortResult, HostResult}
use ipscry.Macs.{format_mac}

-- `strconv.Itoa` of a number that is not negative; a number below 2 ^ 64 has at most twenty digits.
unfoldable pub decimal : ℕ → ℕ → Bytes
decimal zero n = []
decimal (suc fuel) n =
    let front = decimal fuel (n / 10) in
    if ltb n 10 then (b'0' + n) ∷ [] else front ++ (b'0' + n % 10) ∷ []

abbrev pub itoa : ℕ → Bytes
itoa n = decimal 20 n

unfoldable pub format_latency : ℤ → Bytes
unfolding decimal
format_latency (pos ms) = itoa ms
format_latency (negsuc n) = []

-- `portResult{}`
abbrev pub empty_port : PortResult
empty_port = record {
  port = 0;
  service = [];
  vendors = [];
  banner = [];
  http_status = [];
  http_server = [];
  http_title = [];
  http_redirect = [];
  tls_subject = [];
  probe_error = [];
}

unfoldable pub host_csv_row : HostResult → PortResult → Bytes → List Bytes
unfolding format_latency decimal format_mac
host_csv_row host port mac_format =
    host.ip
    ∷ format_mac host.mac mac_format
    ∷ host.mac_vendor
    ∷ format_latency host.latency_ms
    ∷ host.hostname
    ∷ host.guess
    ∷ host.status
    ∷ host.arp_type
    ∷ itoa host.arp_if_index
    ∷ join (codes ";") host.discovery_sources
    ∷ host.mdns_name
    ∷ join (codes ";") host.mdns_services
    ∷ host.llmnr_name
    ∷ host.ssdp_server
    ∷ host.upnp_type
    ∷ host.upnp_friendly
    ∷ host.upnp_model
    ∷ join (codes ";") host.wsd_types
    ∷ join (codes ";") host.wsd_scopes
    ∷ (if port.port == 0 then [] else itoa port.port)
    ∷ (if port.port == 0 then [] else port.service)
    ∷ port.vendors
    ∷ port.banner
    ∷ port.http_status
    ∷ port.http_server
    ∷ port.http_title
    ∷ port.http_redirect
    ∷ port.tls_subject
    ∷ host.sys_name
    ∷ host.sys_descr
    ∷ []

unfoldable pub csv_header : List Bytes
csv_header = map codes (
    "ip" ∷ "mac" ∷ "mac_vendor" ∷ "latency_ms" ∷ "hostname" ∷ "guess" ∷ "status" ∷ "arp_type"
    ∷ "arp_ifindex" ∷ "discovery_sources" ∷ "mdns_name" ∷ "mdns_services" ∷ "llmnr_name"
    ∷ "ssdp_server" ∷ "upnp_type" ∷ "upnp_friendly" ∷ "upnp_model" ∷ "wsd_types" ∷ "wsd_scopes"
    ∷ "port" ∷ "service" ∷ "vendors" ∷ "banner" ∷ "http_status" ∷ "http_server" ∷ "http_title"
    ∷ "http_redirect" ∷ "tls_subject" ∷ "snmp_sysname" ∷ "snmp_sysdescr" ∷ [])

-- The rows of a host: one for each open port, or one without
unfoldable pub port_rows : HostResult → List PortResult → Bytes → List (List Bytes)
unfolding host_csv_row
port_rows host [] mac_format = []
port_rows host (port ∷ ports) mac_format =
    host_csv_row host port mac_format ∷ port_rows host ports mac_format

unfoldable pub host_rows : HostResult → List PortResult → Bytes → List (List Bytes)
unfolding port_rows
host_rows host [] mac_format = host_csv_row host empty_port mac_format ∷ []
host_rows host (port ∷ ports) mac_format = port_rows host (port ∷ ports) mac_format

unfoldable pub csv_rows : List HostResult → Bytes → List (List Bytes)
unfolding host_rows
csv_rows [] mac_format = []
csv_rows (host ∷ hosts) mac_format =
    host_rows host host.open_ports mac_format ++ csv_rows hosts mac_format

unfoldable pub write_csv : List HostResult → Bytes → List (List Bytes)
unfolding csv_header csv_rows
write_csv hosts mac_format = csv_header ∷ csv_rows hosts mac_format
