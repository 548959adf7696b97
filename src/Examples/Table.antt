-- ===== src/Examples/Table.antt =====
-- The theorems on the watch table at concrete tables.
use ipscry.Common.{
  ◌++◌, take, ◌-◌, ◌≤◌, min, ◌≡◌, refl, ◌⊎◌, true, false, some, List, [], ◌∷◌, length, Bytes,
}
use ipscry.Common.Text.{codes, text_eq}
use ipscry.Common.Int.{pos, minus_one}
use ipscry.Common.Maps.{find}
use ipscry.Hosts.{PortResult, HostResult, blank_host}
use ipscry.Common.Text.{to_lower, contains, join}
use ipscry.Guess.{guess_device}
use ipscry.Keys.{TuiKey, read_key}
use ipscry.Display.{Widths}
use ipscry.Tui.{ScanTui, record_ping, has_host}
use ipscry.Tui.{record_miss, misses, stats_for, tui_ping_avg_window, avg}
use ipscry.Tui.Stats.{none_seen, pinged, missed, IsFresh, IsShown, Reachable_lem}
use ipscry.Common.{drop, arith}
use ipscry.Tui.Scroll.{key_page_down, scroll, tui_max_host_rows, host_view}
use ipscry.Tui.Scroll.Shown.{IsMoved, host_view-scroll}
use ipscry.Tui.Reports.{enrich_start, http_refresh, find_host}
use ipscry.Tui.Toggles.{ArpAgrees, toggle_arp, enrich_start-toggle_arp}
use ipscry.Tui.Rescan.{dead, reconcile_rescan_hosts}
use ipscry.Tui.Rescan.Rows.{or_dead, find_host-reconcile}
use ipscry.Tui.Escalation.{silent, silent_lem}
use ipscry.Tui.Refresh.{AreKept, http_refresh-AreKept}

abbrev pub a_table : List HostResult → ScanTui
a_table hosts = record {
  target = codes "10.0.0.0/24";
  total = 0;
  scanned = 0;
  scan_hosts = [];
  hosts = hosts;
  host_discovered_at = [];
  host_changed_at = [];
  ping_stats = [];
  watch_populated = true;
  scroll_off = 0;
  export_status = [];
  export_err = false;
  export_status_at = 0;
  phase = codes "watch";
  host_total = 0;
  elapsed = 0;
  watch = record {
    ips = [];
    ports = [];
    enrich = record {
      snmp_community = [];
      arp_cache = false;
      target_cidrs = [];
      tui_arp_detail = false;
    };
    mac_format = codes "colon";
  };
  ip_chunks = [];
  small_net = true;
  ping_chunk = 0;
  watch_chunk_num = 1;
  watch_chunk_total = 1;
  rescanning = false;
  auto_ping = true;
  auto_scan = false;
  auto_arp = false;
}

abbrev a_host : HostResult
a_host = blank_host (codes "10.0.0.1") (pos 3) (codes "live")

abbrev b_host : HostResult
b_host = blank_host (codes "10.0.0.2") (pos 5) (codes "live")

abbrev a_port : Bytes → PortResult
a_port http = record {
  port = 80;
  service = codes "http";
  vendors = [];
  banner = [];
  http_status = http;
  http_server = [];
  http_title = [];
  http_redirect = [];
  tls_subject = [];
  probe_error = [];
}

abbrev a_server : Bytes → HostResult
a_server http = record a_host { open_ports = a_port http ∷ [] }

abbrev ten_hosts : List HostResult
ten_hosts =
    a_host ∷ a_host ∷ a_host ∷ a_host ∷ a_host ∷ b_host ∷ b_host ∷ b_host ∷ b_host ∷ b_host ∷ []

Reachable_lem_example :
    let m = record_ping a_host.ip (pos 7) (record_miss a_host.ip []) in
    (length (stats_for m a_host.ip).samples ≤ tui_ping_avg_window)
    × ((IsFresh (stats_for m a_host.ip) × (avg (stats_for m a_host.ip) ≡ minus_one))
        ⊎ IsShown (stats_for m a_host.ip))
Reachable_lem_example =
    Reachable_lem (record_ping a_host.ip (pos 7) (record_miss a_host.ip [])) a_host.ip
      (pinged a_host.ip (pos 7) (record_miss a_host.ip []) (missed a_host.ip [] none_seen))

abbrev watched : ScanTui
watched = record (a_table ten_hosts) { phase = codes "watch" }

-- A screen of twelve lines shows five of the ten hosts.
host_view-scroll_example :
    (length (host_view 12 (scroll key_page_down 12 watched))
      ≡ min (tui_max_host_rows 12) (length ten_hosts))
    × IsMoved key_page_down
        (tui_max_host_rows 12)
        0
        ten_hosts
        (host_view 12 watched)
        (host_view 12 (scroll key_page_down 12 watched))
unfolding text_eq
host_view-scroll_example = host_view-scroll key_page_down 12 watched refl (omega arith)

host_view_runs : host_view 12 (scroll key_page_down 12 watched) ≡ drop 5 ten_hosts
unfolding host_view scroll text_eq
host_view_runs = refl

enrich_start-toggle_arp_example :
    let t = a_table [] in
    ArpAgrees (toggle_arp 5 t)
    × ((enrich_start [] t.watch.enrich (toggle_arp 5 t)).watch.enrich ≡ t.watch.enrich)
    × ¬ ArpAgrees (enrich_start [] t.watch.enrich (toggle_arp 5 t))
enrich_start-toggle_arp_example = enrich_start-toggle_arp 5 [] (a_table []) refl

find_host-reconcile_example :
    find_host a_host.ip (reconcile_rescan_hosts 9 (b_host ∷ []) (a_table (a_host ∷ []))).hosts
    ≡ or_dead (find_host a_host.ip (b_host ∷ [])) (find_host a_host.ip (a_host ∷ []))
unfolding has_host
find_host-reconcile_example =
    find_host-reconcile 9 (b_host ∷ []) (a_table (a_host ∷ [])) a_host.ip (refl, tt)

silent_lem_example :
    find_host a_host.ip (silent 10 0 a_host.ip (a_table (a_host ∷ b_host ∷ []))).hosts
    ≡ some (dead a_host)
unfolding has_host find_host text_eq misses find
silent_lem_example =
    silent_lem 9 0 a_host.ip (a_table (a_host ∷ b_host ∷ [])) a_host (refl, (refl, tt)) refl refl

http_refresh-AreKept_example :
    (g : HostResult) × ((find_host a_host.ip
          (http_refresh 4 (a_server (codes "200 OK")) (a_table (a_server [] ∷ []))).hosts
        ≡ some g)
      × AreKept (a_port [] ∷ []) g.open_ports)
unfolding find_host text_eq
http_refresh-AreKept_example =
    http_refresh-AreKept 4 (a_server (codes "200 OK")) (a_server []) (a_table (a_server [] ∷ []))
      refl

-- The host announces a service that is known, and one that is new.
guess_device_runs :
    (guess_device to_lower (a_port [] ∷ []) (codes "HP LaserJet") ≡ codes "printer")
    × (guess_device to_lower (a_port [] ∷ []) [] ≡ codes "linux/device")
unfolding guess_device contains to_lower join
guess_device_runs = (refl, refl)

-- Escape, `[`, `5`, `~` is the Page Up key, and the `q` behind it is left.
read_key_runs : read_key (27 ∷ 91 ∷ 53 ∷ 126 ∷ 113 ∷ []) ≡ some (TuiKey.key_page_up, 113 ∷ [])
unfolding read_key
read_key_runs = refl

-- A width of one column for each byte
abbrev plain_widths : Widths
plain_widths = record {
  no_control = λ s. s;
  string_width = λ s. length s;
  truncate = λ s max tail. take (max - length tail) s ++ tail;
}
