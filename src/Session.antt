-- ===== src/Session.antt =====
-- The watch phase of tui.go as a session on the table: Finish, the keys of WaitExit, doExport and
-- exportResults, and discoverHostAsync with the addresses that it is at work on. What the network and
-- the file system answer is an argument.
pub mod Rows
pub mod Steps
use ipscry.Common.{
  ℕ, ◌+◌, ◌-◌, Bool, true, false, not, ◌&&◌, Option, none, some, List, [], ◌∷◌, ◌++◌, leb, ◌==◌,
  if◌then◌else◌, length, done, Bytes,
}
use ipscry.Common.Text.{codes, text_eq}
use ipscry.Common.Int.{ℤ}
use ipscry.Common.Maps.{find, put, remove}
use ipscry.Hosts.{PortResult, HostResult, ArpCacheEntry, is_empty}
use ipscry.Macs.{Ouis}
use ipscry.Ports.{split_ip_chunks}
use ipscry.Keys.{TuiKey}
use ipscry.Enrich.{Lookups, enrich_host, should_include_host, build_arp_dead_by_ip}
use ipscry.ScanNetwork.{sort_hosts}
use ipscry.Tui.{ScanTui, TuiWatchConfig}
use ipscry.Tui.Reports.{add_discover_placeholder, upsert_host, remove_host}
use ipscry.Tui.Toggles.{toggle_auto_ping, toggle_auto_scan, toggle_arp, cycle_mac_format}
use ipscry.Tui.Scroll.{ScrollKey, scroll}
use ipscry.Tui.Rescan.{record_pings, trigger_rescan}

abbrev pub tui_watch_chunk_size : ℕ
tui_watch_chunk_size = 256

-- `Finish`, without its three goroutines
unfoldable pub finish :
    (Bytes → Option Bytes) → ℕ → TuiWatchConfig → List HostResult → ScanTui → ScanTui
unfolding split_ip_chunks sort_hosts record_pings
finish parse elapsed watch hosts t =
    let chunks = split_ip_chunks watch.ips tui_watch_chunk_size in
    let small = leb (length watch.ips) tui_watch_chunk_size in
    let sorted = sort_hosts parse hosts in
    record t {
      phase = codes "watch";
      elapsed = elapsed;
      watch = watch;
      ip_chunks = chunks;
      small_net = small;
      ping_chunk = 0;
      watch_chunk_num = 1;
      watch_chunk_total = if small then 1 else length chunks;
      hosts = sorted;
      auto_ping = true;
      auto_scan = false;
      auto_arp = watch.enrich.arp_cache;
      ping_stats = record_pings sorted t.ping_stats;
    }

pub data ExportFormat : Type 0 where
  csv json txt : ExportFormat

-- A path, or the text of an error
pub data Exported : Type 0 where
  exported : Bytes → Exported
  export_failed : Bytes → Exported

-- `save` writes the report of the hosts in a format of MAC addresses.
unfoldable pub export_results :
    (Bytes → Option Bytes)
    → (ExportFormat → List HostResult → Bytes → Exported)
    → ExportFormat
    → ScanTui
    → Exported
unfolding sort_hosts text_eq
export_results parse save format t =
    let mac_format = if length t.watch.mac_format == 0 then codes "colon" else t.watch.mac_format in
    if not (text_eq t.phase (codes "watch")) && not (text_eq t.phase (codes "done"))
    then export_failed (codes "export only available once scanning completes")
    else save format (sort_hosts parse t.hosts) mac_format

unfoldable pub with_export : ℕ → Exported → ScanTui → ScanTui
with_export now (exported path) t = record t {
  export_status = codes "exported -> " ++ path;
  export_err = false;
  export_status_at = now;
}
with_export now (export_failed message) t = record t {
  export_status = codes "export failed: " ++ message;
  export_err = true;
  export_status_at = now;
}

unfoldable pub do_export :
    (Bytes → Option Bytes)
    → (ExportFormat → List HostResult → Bytes → Exported)
    → ℕ
    → ExportFormat
    → ScanTui
    → ScanTui
unfolding export_results with_export
do_export parse save now format t = with_export now (export_results parse save format t) t

-- What a key does: the end of the session, or the table behind it, and whether a rescan starts
pub data Pressed : Type 0 where
  left : Pressed
  stays : ScanTui → Pressed
  rescans : ScanTui × Bool → Pressed

-- The switch of `WaitExit`; `rows` is the height of the terminal.
unfoldable pub press :
    (Bytes → Option Bytes)
    → (ExportFormat → List HostResult → Bytes → Exported)
    → ℕ
    → ℕ
    → TuiKey
    → ScanTui
    → Pressed
unfolding do_export trigger_rescan cycle_mac_format toggle_auto_ping toggle_auto_scan toggle_arp
    scroll
press parse save now rows TuiKey.key_none t = stays t
press parse save now rows TuiKey.key_exit t = left
press parse save now rows TuiKey.key_csv t = stays (do_export parse save now csv t)
press parse save now rows TuiKey.key_json t = stays (do_export parse save now json t)
press parse save now rows TuiKey.key_txt t = stays (do_export parse save now txt t)
press parse save now rows TuiKey.key_rescan t = rescans (trigger_rescan t)
press parse save now rows TuiKey.key_mac_format t = stays (cycle_mac_format now t)
press parse save now rows TuiKey.key_auto_ping t = stays (toggle_auto_ping now t)
press parse save now rows TuiKey.key_auto_scan t = stays (toggle_auto_scan now t)
press parse save now rows TuiKey.key_arp t = stays (toggle_arp now t)
press parse save now rows TuiKey.key_up t = stays (scroll ScrollKey.key_up rows t)
press parse save now rows TuiKey.key_down t = stays (scroll ScrollKey.key_down rows t)
press parse save now rows TuiKey.key_page_up t = stays (scroll ScrollKey.key_page_up rows t)
press parse save now rows TuiKey.key_page_down t = stays (scroll ScrollKey.key_page_down rows t)
press parse save now rows TuiKey.key_top t = stays (scroll ScrollKey.key_top rows t)
press parse save now rows TuiKey.key_bottom t = stays (scroll ScrollKey.key_bottom rows t)

-- The table, and the addresses in `pendingDiscover`
pub record Session : Type 0 where
  pub table : ScanTui
  pub pending : List (Bytes × Unit {0})

-- The start of `discoverHostAsync`: whether its goroutine starts
unfoldable pub begin_discover : ℕ → Bytes → ℤ → Session → Session × Bool
unfolding find put add_discover_placeholder
begin_discover now ip latency s = elim (find ip s.pending) [
  | some loaded ↦ (s, false)
  | none ↦ (
    record {
      table = add_discover_placeholder now ip latency s.table;
      pending = put ip tt s.pending;
    },
    true,
  )
]

-- The goroutine, with the ports that scanIPPorts found
unfoldable pub discovered_table :
    Lookups
    → (Bytes → Bytes)
    → Ouis
    → ℕ
    → TuiWatchConfig
    → Bytes
    → ℤ
    → Bool
    → List (Bytes × ArpCacheEntry)
    → List PortResult
    → ScanTui
    → ScanTui
unfolding find should_include_host remove_host upsert_host enrich_host build_arp_dead_by_ip
discovered_table net lower ouis now watch ip latency discovery arp_by_ip ports t =
    let live : List (Bytes × Unit {0}) = if is_empty ports then [] else (ip, tt) ∷ [] in
    let dead = build_arp_dead_by_ip arp_by_ip live in
    if not (should_include_host ports discovery watch.enrich.arp_cache (find ip arp_by_ip) none)
    then remove_host ip t
    else upsert_host now
        (enrich_host net lower ouis ip ports watch.enrich discovery arp_by_ip dead [] latency) t

unfoldable pub end_discover :
    Lookups
    → (Bytes → Bytes)
    → Ouis
    → ℕ
    → TuiWatchConfig
    → Bytes
    → ℤ
    → Bool
    → List (Bytes × ArpCacheEntry)
    → List PortResult
    → Session
    → Session
unfolding discovered_table remove
end_discover net lower ouis now watch ip latency discovery arp_by_ip ports s = record {
  table = discovered_table net lower ouis now watch ip latency discovery arp_by_ip ports s.table;
  pending = remove ip s.pending;
}
