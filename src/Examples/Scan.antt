-- ===== src/Examples/Scan.antt =====
-- The theorems on scanning and on the embedded data at concrete inputs, and runs of their definitions.
use ipscry.Common.{
  ◌+◌, ◌-◌, ◌/◌, ◌<◌, ◌≡◌, refl, false, ◌||◌, Option, none, some, List, [], ◌∷◌, ◌++◌, map, arith,
  ltb, ◌==◌, if◌then◌else◌, done, panic, slice, Bytes,
}
use ipscry.Common.Text.{codes, text_eq, index, join, lower_byte, to_lower}
use ipscry.Common.Trim.{trim_space}
use mathlib.Core.List.{Permᴰ}
use ipscry.Common.Int.{pos}
use ipscry.Sanitize.{sanitize_one_line}
use ipscry.Ports.{parse_ports}
use ipscry.Ports.Valid.{ArePorts, Gives}
use ipscry.Catalog.{default_scan_ports, service_label, find_port, port_catalog}
use ipscry.Catalog.Defaults.{parse_ports-default_scan_ports}
use ipscry.Upnp.{extract_xml_tag}
use ipscry.Csv.{decimal, itoa, format_latency}
use ipscry.Macs.{Ouis, init_mac_vendors, mac_hex_digits, mac_vendor, valid_arp_mac, format_mac}
use ipscry.Macs.Digits.{mac_vendor-format_mac}
use ipscry.Scan.{
  http_error, tls_error, Network, PortScanResult, scan_each, scan_ip_ports, extract_title,
}
use ipscry.Scan.Order.{scan_ip_ports-scan_each}
use ipscry.Scan.Title.{broken, empty_title, extract_title_panics}

abbrev records : Option (List (List Bytes))
records = some (
    (codes "port" ∷ codes "service" ∷ [])
    ∷ (codes "443" ∷ codes "HTTPS" ∷ codes "nginx" ∷ [])
    ∷ (codes "0" ∷ codes "none" ∷ [])
    ∷ (codes "22" ∷ codes "SSH" ∷ [])
    ∷ (codes "443" ∷ codes "https" ∷ [])
    ∷ [])

default_scan_ports_runs : default_scan_ports to_lower records ≡ 22 ∷ 443 ∷ []
unfolding default_scan_ports trim_space to_lower ipscry.Common.Atoi.atoi ipscry.Ports.sort_ints
default_scan_ports_runs = refl

parse_ports-default_scan_ports_example :
    Gives ArePorts (parse_ports to_lower (default_scan_ports to_lower records) (codes "common"))
parse_ports-default_scan_ports_example =
    parse_ports-default_scan_ports to_lower records (codes "common")

abbrev vendors : Ouis
vendors =
    init_mac_vendors
      ((codes "001122" ∷ codes "Acme" ∷ []) ∷ (codes "0011223" ∷ codes "Acme Labs" ∷ []) ∷ [])

mac_runs :
    (format_mac (codes "00-11-22-3A-BB-cc") (codes "colon") ≡ codes "00:11:22:3a:bb:cc")
    × (mac_vendor vendors (codes "00:11:22:3a:bb:cc") ≡ codes "Acme Labs")
    × (valid_arp_mac (codes "01:00:5e:00:00:fb") ≡ false)
unfolding format_mac mac_vendor valid_arp_mac text_eq init_mac_vendors join
mac_runs = (refl, refl, refl)

mac_vendor-format_mac_example :
    (mac_hex_digits (format_mac (codes "00-11-22-3A-BB-cc") (codes "colon"))
      ≡ mac_hex_digits (codes "00-11-22-3A-BB-cc"))
    × (mac_vendor vendors (format_mac (codes "00-11-22-3A-BB-cc") (codes "colon"))
        ≡ mac_vendor vendors (codes "00-11-22-3A-BB-cc"))
mac_vendor-format_mac_example =
    mac_vendor-format_mac vendors (codes "00-11-22-3A-BB-cc") (codes "colon")

-- `html.UnescapeString` on text without entities
abbrev plain : Bytes → Bytes
plain s = s

extract_title_runs :
    extract_title to_lower plain (codes "<html><TITLE>Printer 7</title>") ≡ done (codes "Printer 7")
unfolding extract_title to_lower trim_space index slice sanitize_one_line
extract_title_runs = refl

-- `strings.ToLower` on text of ASCII and bytes that are no UTF-8
abbrev lower_or_replace : Bytes → Bytes
lower_or_replace [] = []
lower_or_replace (c ∷ s) =
    let rest = lower_or_replace s in
    if ltb c 0x80 then lower_byte c ∷ rest else 0xef ∷ 0xbf ∷ 0xbd ∷ rest

extract_title_panics_example :
    extract_title lower_or_replace plain (broken 5 ++ empty_title) ≡ panic
unfolding lower_byte
extract_title_panics_example = extract_title_panics lower_or_replace plain 5 (omega arith) refl

-- A host with two open ports
abbrev net : Network
net = record {
  http_get = λ ip port. http_error (codes "timeout");
  resolve = λ ip port loc. loc;
  tls_dial = λ ip port. tls_error (codes "timeout");
  tcp_dial = λ ip port. port == 22 || port == 80;
  banner = λ ip port. codes "SSH-2.0";
  latency = λ ip port. pos 4;
}

abbrev ssh : PortScanResult
ssh = record {
  ip = codes "10.0.0.7";
  port = record {
    port = 22;
    service = codes "ssh";
    vendors = [];
    banner = codes "SSH-2.0";
    http_status = [];
    http_server = [];
    http_title = [];
    http_redirect = [];
    tls_subject = [];
    probe_error = [];
  };
  latency_ms = pos 4;
}

abbrev http : PortScanResult
http = record ssh {
  port = record ssh.port {
    port = 80;
    service = codes "http";
    banner = [];
    probe_error = codes "timeout";
  };
}

-- The web server answers first.
scan_ip_ports-scan_each_example :
    scan_ip_ports (http ∷ ssh ∷ []) ≡ map (λ r. r.port) (ssh ∷ http ∷ [])
unfolding scan_each sanitize_one_line trim_space find_port port_catalog service_label
    ipscry.Catalog.port_vendors
scan_ip_ports-scan_each_example =
    scan_ip_ports-scan_each to_lower plain net [] (codes "10.0.0.7") (21 ∷ 22 ∷ 80 ∷ [])
      (ssh ∷ http ∷ []) (http ∷ ssh ∷ [])
      ((omega arith, (omega arith, tt)), ((omega arith, tt), (tt, tt))) refl (Permᴰ.swap refl refl)

itoa_runs : (itoa 305 ≡ codes "305") × (itoa 0 ≡ codes "0") × (format_latency (pos 12) ≡ codes "12")
unfolding decimal format_latency
itoa_runs = (refl, refl, refl)

extract_xml_tag_runs :
    extract_xml_tag to_lower (codes "<root><ModelName> X9 </modelname>") (codes "modelName")
    ≡ done (codes "X9")
unfolding extract_xml_tag to_lower trim_space index slice
extract_xml_tag_runs = refl
