-- ===== src/Hosts.antt =====
-- The records that the scanner fills: hostResult, portResult, portScanResult and arpCacheEntry of
-- main.go, and discoveryHit of discovery.go.
use ipscry.Common.{ℕ, Bool, true, false, List, [], ◌∷◌, Bytes}
use ipscry.Common.Int.{ℤ}

pub record PortResult : Type 0 where
  pub port : ℕ
  pub service : Bytes
  pub vendors : Bytes
  pub banner : Bytes
  pub http_status : Bytes
  pub http_server : Bytes
  pub http_title : Bytes
  pub http_redirect : Bytes
  pub tls_subject : Bytes
  pub probe_error : Bytes

pub record HostResult : Type 0 where
  pub ip : Bytes
  pub mac : Bytes
  pub mac_vendor : Bytes
  pub latency_ms : ℤ
  pub arp_type : Bytes
  pub arp_if_index : ℕ
  pub arp_if_alias : Bytes
  pub hostname : Bytes
  pub sys_name : Bytes
  pub sys_descr : Bytes
  pub discovery_sources : List Bytes
  pub mdns_name : Bytes
  pub mdns_services : List Bytes
  pub llmnr_name : Bytes
  pub ssdp_server : Bytes
  pub upnp_type : Bytes
  pub upnp_location : Bytes
  pub upnp_friendly : Bytes
  pub upnp_model : Bytes
  pub wsd_types : List Bytes
  pub wsd_xaddrs : List Bytes
  pub wsd_scopes : List Bytes
  pub open_ports : List PortResult
  pub guess : Bytes
  pub status : Bytes

pub record ArpCacheEntry : Type 0 where
  pub ip : Bytes
  pub mac : Bytes
  pub kind : Bytes
  pub if_index : ℕ
  pub if_alias : Bytes

pub record DiscoveryHit : Type 0 where
  pub ip : Bytes
  pub sources : List Bytes
  pub mdns_name : Bytes
  pub mdns_services : List Bytes
  pub llmnr_name : Bytes
  pub ssdp_server : Bytes
  pub upnp_type : Bytes
  pub upnp_location : Bytes
  pub upnp_friendly : Bytes
  pub upnp_model : Bytes
  pub wsd_types : List Bytes
  pub wsd_xaddrs : List Bytes
  pub wsd_scopes : List Bytes

-- `s == ""`
abbrev pub is_empty {ℓ} : {A : Type ℓ} → List A → Bool
is_empty [] = true
is_empty (x ∷ xs) = false

-- `discoveryHit{}`
abbrev pub blank_hit : DiscoveryHit
blank_hit = record {
  ip = [];
  sources = [];
  mdns_name = [];
  mdns_services = [];
  llmnr_name = [];
  ssdp_server = [];
  upnp_type = [];
  upnp_location = [];
  upnp_friendly = [];
  upnp_model = [];
  wsd_types = [];
  wsd_xaddrs = [];
  wsd_scopes = [];
}

-- `hostResult{}` but for the address, the latency and the status
abbrev pub blank_host : Bytes → ℤ → Bytes → HostResult
blank_host ip latency status = record {
  ip = ip;
  mac = [];
  mac_vendor = [];
  latency_ms = latency;
  arp_type = [];
  arp_if_index = 0;
  arp_if_alias = [];
  hostname = [];
  sys_name = [];
  sys_descr = [];
  discovery_sources = [];
  mdns_name = [];
  mdns_services = [];
  llmnr_name = [];
  ssdp_server = [];
  upnp_type = [];
  upnp_location = [];
  upnp_friendly = [];
  upnp_model = [];
  wsd_types = [];
  wsd_xaddrs = [];
  wsd_scopes = [];
  open_ports = [];
  guess = [];
  status = status;
}
