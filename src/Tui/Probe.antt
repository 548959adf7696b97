-- ===== src/Tui/Probe.antt =====
-- The pings of the watch phase in tui.go: runPingTick over a batch of addresses, and runFastProbe
-- over the suspects. A run reads the state, pings without the mutex and then applies the answers, so
-- each is two functions here. The answers and the ARP cache are arguments.
use ipscry.Common.{
  ℕ, ◌+◌, ◌%◌, Bool, true, false, not, ◌&&◌, ◌||◌, Option, none, some, List, [], ◌∷◌, ◌++◌, ltb,
  leb, ◌==◌, if◌then◌else◌, length, get_or, Bytes,
}
use ipscry.Common.Text.{codes, text_eq}
use ipscry.Common.Int.{ℤ, minus_one}
use ipscry.Common.Maps.{find, put}
use ipscry.Hosts.{HostResult, ArpCacheEntry, is_empty}
use ipscry.Tui.{ScanTui, HostPingStats, record_ping, update_host, host_state_changed}
use ipscry.Tui.{tui_dead_after_misses, misses, record_miss, host_was_live, move_host_to_bottom}
use ipscry.Tui.Reports.{find_host}

abbrev pub is_dead : HostResult → Bool
is_dead h = text_eq h.status (codes "dead")

-- A host that answered; a dead one is live again if it has a port.
unfoldable pub answered : ℤ → HostResult → HostResult
answered ms h = record h {
  latency_ms = ms;
  status = if is_dead h then (if is_empty h.open_ports then [] else codes "live") else h.status;
}

-- A host with `n` misses in a row that is not dead yet
unfoldable pub silenced : ℕ → HostResult → HostResult
silenced n h =
    if leb tui_dead_after_misses n && not (is_dead h)
    then record h { latency_ms = minus_one; status = codes "dead" }
    else h

-- `suspects` in `runFastProbe`; the order of a map is not fixed.
unfoldable pub suspects : List (Bytes × HostPingStats) → List Bytes
suspects [] = []
suspects ((ip, s) ∷ m) =
    let rest = suspects m in
    if leb 1 s.misses && ltb s.misses tui_dead_after_misses then ip ∷ rest else rest

unfoldable pub begin_fast_probe : ScanTui → List Bytes
unfolding suspects
begin_fast_probe t = if t.rescanning || not t.auto_ping then [] else suspects t.ping_stats

-- The end of a round of `runFastProbe`: the row is `after` where it was `before`.
unfoldable pub settle : ℕ → Bytes → HostResult → HostResult → ScanTui → ScanTui
unfolding update_host host_state_changed move_host_to_bottom
settle now ip before after t =
    let hosts = update_host ip (λ _. after) t.hosts in
    record t {
      hosts = if is_dead after && not (is_dead before) then move_host_to_bottom ip hosts else hosts;
      host_changed_at =
          if host_state_changed before after
          then put ip now t.host_changed_at
          else t.host_changed_at;
    }

-- One suspect, of which `before` is the row.
unfoldable pub probe_row : ℕ → Bytes → Option ℤ → HostResult → ScanTui → ScanTui
unfolding settle answered silenced record_ping record_miss misses
probe_row now ip (some ms) before t =
    settle now ip before (answered ms before)
      (record t { ping_stats = record_ping ip ms t.ping_stats })
probe_row now ip none before t =
    let stats = record_miss ip t.ping_stats in
    settle now ip before (silenced (misses ip stats) before) (record t { ping_stats = stats })

unfoldable pub probe : ℕ → List (Bytes × ℤ) → Bytes → ScanTui → ScanTui
unfolding probe_row find_host
probe now pings ip t = elim (find_host ip t.hosts) [
  | none ↦ t
  | some before ↦ probe_row now ip (find ip pings) before t
]

-- The loop over the suspects.
unfoldable pub apply_fast_probe : ℕ → List (Bytes × ℤ) → List Bytes → ScanTui → ScanTui
unfolding probe
apply_fast_probe now pings [] t = t
apply_fast_probe now pings (ip ∷ ips) t = apply_fast_probe now pings ips (probe now pings ip t)

-- The batch that `runPingTick` pings, and the state that knows the next one.
unfoldable pub begin_ping_tick : ScanTui → List Bytes × ScanTui
begin_ping_tick t =
    if t.rescanning
    then ([], t)
    else if t.small_net
    then (t.watch.ips, t)
    else if is_empty t.ip_chunks
    then ([], t)
    else (
      get_or t.ip_chunks t.ping_chunk [],
      record t {
        watch_chunk_num = t.ping_chunk + 1;
        ping_chunk = (t.ping_chunk + 1) % length t.ip_chunks;
      },
    )

-- `applyARPFromCache`
unfoldable pub apply_arp_from_cache : HostResult → ArpCacheEntry → HostResult
apply_arp_from_cache host entry = record host {
  arp_type = entry.kind;
  arp_if_index = entry.if_index;
  arp_if_alias = entry.if_alias;
  mac = if is_empty entry.mac then host.mac else entry.mac;
}

module _ (mac_vendor : Bytes → Bytes) where
  -- One row of the first loop of `runPingTick`
  unfoldable pub arp_row : List (Bytes × ArpCacheEntry) → HostResult → HostResult
  unfolding apply_arp_from_cache
  arp_row arp h = elim (find h.ip arp) [
    | none ↦ h
    | some entry ↦
        let host = apply_arp_from_cache h entry in
        if not (is_empty host.mac) && is_empty host.mac_vendor
        then record host { mac_vendor = mac_vendor host.mac }
        else host
  ]

  unfoldable pub arp_rows : List (Bytes × ArpCacheEntry) → List HostResult → List HostResult
  unfolding arp_row
  arp_rows arp [] = []
  arp_rows arp (h ∷ hosts) = arp_row arp h ∷ arp_rows arp hosts

unfoldable pub listed : Bytes → List Bytes → Bool
listed ip [] = false
listed ip (x ∷ xs) = text_eq x ip || listed ip xs

-- One row of the second loop: the row and the statistics
unfoldable pub tick_row :
    Option ℤ → HostResult → List (Bytes × HostPingStats) → HostResult × List (Bytes × HostPingStats)
unfolding answered record_ping record_miss misses host_was_live
tick_row (some ms) h m = (answered ms h, record_ping h.ip ms m)
tick_row none h m = (h, if host_was_live h && misses h.ip m == 0 then record_miss h.ip m else m)

-- What the second loop changes.
pub record Ticked : Type 0 where
  pub hosts : List HostResult
  pub ping_stats : List (Bytes × HostPingStats)
  pub host_changed_at : List (Bytes × ℕ)

unfoldable pub tick_rows :
    ℕ → Bool → List Bytes → List (Bytes × ℤ) → List HostResult → Ticked → Ticked
unfolding tick_row host_state_changed listed
tick_rows now populated batch pings [] s = s
tick_rows now populated batch pings (h ∷ rows) s =
    let (after, stats) = tick_row (find h.ip pings) h s.ping_stats in
    tick_rows now populated batch pings rows (
      if listed h.ip batch
      then (record {
        hosts = s.hosts ++ after ∷ [];
        ping_stats = stats;
        host_changed_at =
            if populated && host_state_changed h after
            then put h.ip now s.host_changed_at
            else s.host_changed_at;
      })
      else record s { hosts = s.hosts ++ h ∷ [] })

unfoldable pub apply_ping_tick :
    (Bytes → Bytes)
    → ℕ
    → List Bytes
    → List (Bytes × ArpCacheEntry)
    → List (Bytes × ℤ)
    → ScanTui
    → ScanTui
unfolding arp_rows tick_rows
apply_ping_tick mac_vendor now batch arp pings t =
    let s =
      tick_rows now t.watch_populated batch pings (arp_rows mac_vendor arp t.hosts)
        (record { hosts = []; ping_stats = t.ping_stats; host_changed_at = t.host_changed_at }) in
    if is_empty batch then t else record t {
      hosts = s.hosts;
      ping_stats = s.ping_stats;
      host_changed_at = s.host_changed_at;
      watch_populated = true;
    }
