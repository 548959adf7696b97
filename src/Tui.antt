-- ===== src/Tui.antt =====
-- The watch table of tui.go: scanTUI, its hosts and ping statistics. A method of the mutex-guarded
-- struct is a function on the state; the time is an argument. Drawing is left out.
pub mod Stats
pub mod Scroll
pub mod Reports
pub mod Toggles
pub mod Rescan
pub mod Probe
pub mod Refresh
pub mod Distinct
pub mod Steps
pub mod Escalation
use ipscry.Common.{
  ℕ, suc, ◌+◌, ◌-◌, ◌/◌, min, Bool, false, not, ◌&&◌, ◌||◌, Option, none, some, List, [], ◌∷◌, ◌++◌,
  map, ltb, ◌==◌, if◌then◌else◌, length, drop, Bytes,
}
use mathlib.Core.Option
use ipscry.Common.Text.{codes, text_eq}
use ipscry.Common.Int.{ℤ, pos, negsuc, is_negative, ltℤ, minus_one}
use ipscry.Common.Maps.{find, put}
use ipscry.Hosts.{HostResult, is_empty, blank_host}

abbrev pub tui_dead_after_misses : ℕ
tui_dead_after_misses = 10

abbrev pub tui_ping_avg_window : ℕ
tui_ping_avg_window = 6

-- A sample is a latency that was not negative.
pub record HostPingStats : Type 0 where
  pub samples : List ℕ
  pub min : ℤ
  pub max : ℤ
  pub misses : ℕ

unfoldable pub sum : List ℕ → ℕ
sum [] = 0
sum (x ∷ xs) = x + sum xs

unfoldable pub avg : HostPingStats → ℤ
unfolding sum
avg s = if length s.samples == 0 then minus_one else pos (sum s.samples / length s.samples)

-- enrichConfig, without the discovery protocols to run
pub record EnrichConfig : Type 0 where
  pub snmp_community : Bytes
  pub arp_cache : Bool
  pub target_cidrs : List Bytes
  pub tui_arp_detail : Bool

-- tuiWatchConfig, without the time-outs, the concurrency and the logger, which go to the probes
pub record TuiWatchConfig : Type 0 where
  pub ips : List Bytes
  pub ports : List ℕ
  pub enrich : EnrichConfig
  pub mac_format : Bytes

-- scanTUI, without the mutex, the channels, the writer and the frame of the spinner
pub record ScanTui : Type 0 where
  pub target : Bytes
  pub total : ℕ
  pub scanned : ℕ
  pub scan_hosts : List (Bytes × ℤ)
  pub hosts : List HostResult
  pub host_discovered_at : List (Bytes × ℕ)
  pub host_changed_at : List (Bytes × ℕ)
  pub ping_stats : List (Bytes × HostPingStats)
  pub watch_populated : Bool
  pub scroll_off : ℕ
  pub export_status : Bytes
  pub export_err : Bool
  pub export_status_at : ℕ
  pub phase : Bytes
  pub host_total : ℕ
  pub elapsed : ℕ
  pub watch : TuiWatchConfig
  pub ip_chunks : List (List Bytes)
  pub small_net : Bool
  pub ping_chunk : ℕ
  pub watch_chunk_num : ℕ
  pub watch_chunk_total : ℕ
  pub rescanning : Bool
  pub auto_ping : Bool
  pub auto_scan : Bool
  pub auto_arp : Bool

abbrev pub no_stats : HostPingStats
no_stats = record { samples = []; min = minus_one; max = minus_one; misses = 0 }

-- `statsForLocked`
unfoldable pub stats_for : List (Bytes × HostPingStats) → Bytes → HostPingStats
stats_for m ip = elim (find ip m) [ none ↦ no_stats | some s ↦ s ]

-- What `recordPingLocked` does to the statistics; `ms < 0` returns at once.
unfoldable pub add_sample : HostPingStats → ℕ → HostPingStats
add_sample s ms =
    let samples = s.samples ++ ms ∷ [] in
    record {
      samples =
          if ltb tui_ping_avg_window (length samples)
          then drop (length samples - tui_ping_avg_window) samples
          else samples;
      min = if is_negative s.min || ltℤ (pos ms) s.min then pos ms else s.min;
      max = if ltℤ s.max (pos ms) then pos ms else s.max;
      misses = 0;
    }

unfoldable pub record_ping : Bytes → ℤ → List (Bytes × HostPingStats) → List (Bytes × HostPingStats)
unfolding add_sample stats_for
record_ping ip (negsuc n) m = m
record_ping ip (pos ms) m = put ip (add_sample (stats_for m ip) ms) m

-- `recordMissLocked`: the statistics and the count that it returns
unfoldable pub add_miss : HostPingStats → HostPingStats
add_miss s = record s { misses = s.misses + 1 }

unfoldable pub record_miss : Bytes → List (Bytes × HostPingStats) → List (Bytes × HostPingStats)
unfolding add_miss stats_for
record_miss ip m = put ip (add_miss (stats_for m ip)) m

unfoldable pub misses : Bytes → List (Bytes × HostPingStats) → ℕ
misses ip m = elim (find ip m) [ none ↦ 0 | some s ↦ s.misses ]

-- `indexOfLocked`, with `none` for -1
unfoldable pub index_of : Bytes → List HostResult → Option ℕ
index_of ip [] = none
index_of ip (h ∷ hosts) = if text_eq h.ip ip then some 0 else Option.map suc (index_of ip hosts)

-- The first host with the address, by a function.
unfoldable pub update_host : Bytes → (HostResult → HostResult) → List HostResult → List HostResult
update_host ip f [] = []
update_host ip f (h ∷ hosts) = if text_eq h.ip ip then f h ∷ hosts else h ∷ update_host ip f hosts

unfoldable pub has_host : Bytes → List HostResult → Bool
has_host ip [] = false
has_host ip (h ∷ hosts) = text_eq h.ip ip || has_host ip hosts

-- `upsertPlaceholderLocked`
abbrev pub lower_latency : ℤ → HostResult → HostResult
lower_latency ms h =
    if not (is_negative ms) && (is_negative h.latency_ms || ltℤ ms h.latency_ms)
    then record h { latency_ms = ms }
    else h

unfoldable pub upsert_placeholder : Bytes → ℤ → List HostResult → List HostResult
unfolding update_host has_host
upsert_placeholder ip ms hosts =
    if has_host ip hosts
    then update_host ip (lower_latency ms) hosts
    else hosts ++ blank_host ip ms [] ∷ []

unfoldable pub host_state_changed : HostResult → HostResult → Bool
host_state_changed before after =
    not (text_eq before.status after.status)
    || not (length before.open_ports == length after.open_ports)

unfoldable pub host_row_pending : HostResult → Bool
host_row_pending h =
    is_empty h.mac
    && (is_empty h.hostname
        && (is_empty h.guess && (is_empty h.mac_vendor && is_empty h.open_ports)))

unfoldable pub host_was_live : HostResult → Bool
host_was_live h =
    text_eq h.status (codes "dead")
    || (text_eq h.status (codes "live") || text_eq h.status (codes "arp"))
    || (not (is_empty h.open_ports) || ltℤ (pos 0) h.latency_ms)

-- `moveHostToBottomLocked`
unfoldable pub move_host_to_bottom : Bytes → List HostResult → List HostResult
move_host_to_bottom ip [] = []
move_host_to_bottom ip (h ∷ hosts) =
    if text_eq h.ip ip then hosts ++ h ∷ [] else h ∷ move_host_to_bottom ip hosts
