-- ===== src/Tui/Reports.antt =====
-- The methods of scanTUI that the scan and its goroutines call to report what they find, and those
-- that the keys call to toggle what runs on its own.
use ipscry.Common.{
  ℕ, Bool, true, false, not, ◌&&◌, ◌||◌, Option, none, some, List, [], ◌∷◌, ◌++◌, ltb, ◌==◌,
  if◌then◌else◌, length, Bytes,
}
use ipscry.Common.Text.{codes, text_eq}
use ipscry.Common.Int.{ℤ, is_negative, ltℤ, minus_one}
use ipscry.Common.Maps.{find, put, remove}
use ipscry.Hosts.{PortResult, HostResult, is_empty, blank_host}
use mathlib.Core.Option
use ipscry.Tui.{
  EnrichConfig, ScanTui, record_ping, update_host, has_host, upsert_placeholder, host_state_changed,
}

-- `Start`
unfoldable pub start : Bytes → ℕ → EnrichConfig → ScanTui → ScanTui
start target total_ports enrich t = record t {
  target = target;
  watch = record t.watch { enrich = enrich };
  total = total_ports;
}

-- `PortProgress`; the counters are not negative.
unfoldable pub port_progress : ℕ → ℕ → ScanTui → ScanTui
port_progress scanned total t = record t {
  scanned = scanned;
  total = if ltb 0 total then total else t.total;
}

-- `PortOpen`: the lowest latency seen on an open port of the address
abbrev pub lowest : Option ℤ → ℤ → ℤ
lowest none ms = ms
lowest (some prev) ms = if ltℤ ms prev then ms else prev

unfoldable pub port_open : Bytes → ℤ → ScanTui → ScanTui
unfolding upsert_placeholder
port_open ip latency t =
    let ms = lowest (find ip t.scan_hosts) latency in
    record t { scan_hosts = put ip ms t.scan_hosts; hosts = upsert_placeholder ip ms t.hosts }

-- The loop of `EnrichStart`
unfoldable pub add_placeholders : List (Bytes × ℤ) → List Bytes → List HostResult → List HostResult
unfolding upsert_placeholder
add_placeholders scan_hosts [] hosts = hosts
add_placeholders scan_hosts (ip ∷ ips) hosts =
    let ms : ℤ = elim (find ip scan_hosts) [ none ↦ minus_one | some v ↦ v ] in
    add_placeholders scan_hosts ips (upsert_placeholder ip ms hosts)

unfoldable pub enrich_start : List Bytes → EnrichConfig → ScanTui → ScanTui
unfolding add_placeholders
enrich_start ips enrich t = record t {
  phase = codes "enriching";
  host_total = length ips;
  watch = record t.watch { enrich = enrich };
  hosts = add_placeholders t.scan_hosts ips t.hosts;
}

-- A host in place of the row with its address, or behind the rows.
unfoldable pub place_host : HostResult → List HostResult → List HostResult
unfolding update_host has_host
place_host host hosts =
    if has_host host.ip hosts then update_host host.ip (λ _. host) hosts else hosts ++ host ∷ []

-- `HostReady`; recordPingLocked itself ignores a negative latency.
unfoldable pub host_ready : HostResult → ScanTui → ScanTui
unfolding place_host record_ping
host_ready host t = record t {
  hosts = place_host host t.hosts;
  ping_stats = record_ping host.ip host.latency_ms t.ping_stats;
}

-- One new port in `HTTPRefresh`: the first port with its number, and whether it changed
unfoldable pub refresh_port : PortResult → List PortResult → List PortResult × Bool
refresh_port np [] = ([], false)
refresh_port np (p ∷ ports) =
    let (rest, changed) = refresh_port np ports in
    if p.port == np.port
    then if is_empty p.http_status && not (is_empty np.http_status)
      then (np ∷ ports, true)
      else (p ∷ ports, false)
    else (p ∷ rest, changed)

unfoldable pub refresh_ports : List PortResult → List PortResult → List PortResult × Bool
unfolding refresh_port
refresh_ports [] ports = (ports, false)
refresh_ports (np ∷ updated) ports =
    let (once, first) = refresh_port np ports in
    let (all, later) = refresh_ports updated once in (all, first || later)

-- The first host with the address, if there is one.
unfoldable pub find_host : Bytes → List HostResult → Option HostResult
find_host ip [] = none
find_host ip (h ∷ hosts) = if text_eq h.ip ip then some h else find_host ip hosts

unfoldable pub http_refresh : ℕ → HostResult → ScanTui → ScanTui
unfolding refresh_ports find_host update_host
http_refresh now updated t = elim (find_host updated.ip t.hosts) [
  | none ↦ t
  | some host ↦
      let (ports, changed) = refresh_ports updated.open_ports host.open_ports in
      record t {
        hosts = update_host updated.ip (λ h. record h { open_ports = ports }) t.hosts;
        host_changed_at =
            if changed then put updated.ip now t.host_changed_at else t.host_changed_at;
      }
]

-- `addDiscoverPlaceholder`
unfoldable pub add_discover_placeholder : ℕ → Bytes → ℤ → ScanTui → ScanTui
unfolding has_host record_ping
add_discover_placeholder now ip latency t = if has_host ip t.hosts then t else record t {
  host_discovered_at =
      if text_eq t.phase (codes "watch")
      then put ip now t.host_discovered_at
      else t.host_discovered_at;
  hosts = t.hosts ++ blank_host ip latency (if is_negative latency then [] else codes "live") ∷ [];
  ping_stats = record_ping ip latency t.ping_stats;
}

-- `upsertHost`
unfoldable pub upsert_host : ℕ → HostResult → ScanTui → ScanTui
unfolding place_host record_ping find_host host_state_changed
upsert_host now host t =
    let placed = record t {
      hosts = place_host host t.hosts;
      ping_stats = record_ping host.ip host.latency_ms t.ping_stats;
    } in
    elim (find_host host.ip t.hosts) [
      | some before ↦
          if t.watch_populated && host_state_changed before host
          then record placed { host_changed_at = put host.ip now t.host_changed_at }
          else placed
      | none ↦
          if text_eq t.phase (codes "watch")
          then record placed { host_discovered_at = put host.ip now t.host_discovered_at }
          else placed
    ]

-- The loop of `removeHost`: the rows without the first of the address that has no MAC and no port,
-- if there is one.
unfoldable pub drop_row : Bytes → List HostResult → Option (List HostResult)
drop_row ip [] = none
drop_row ip (h ∷ hosts) =
    let rest = drop_row ip hosts in
    if text_eq h.ip ip && (is_empty h.mac && is_empty h.open_ports)
    then some hosts
    else Option.map (λ hs. h ∷ hs) rest

unfoldable pub remove_host : Bytes → ScanTui → ScanTui
unfolding drop_row
remove_host ip t = elim (drop_row ip t.hosts) [
  | none ↦ t
  | some hosts ↦ record t {
    hosts = hosts;
    host_discovered_at = remove ip t.host_discovered_at;
    host_changed_at = remove ip t.host_changed_at;
    ping_stats = remove ip t.ping_stats;
  }
]
