-- ===== src/Tui/Rescan.antt =====
-- A rescan in tui.go: triggerRescan, applyRescanResults and the reconciliation of the rows with what
-- the scan found.
pub mod Rows
pub mod Unique
use ipscry.Common.{
  ℕ, ◌+◌, ◌*◌, Bool, true, false, not, ◌&&◌, ◌||◌, Option, none, some, List, [], ◌∷◌, ◌++◌,
  if◌then◌else◌, length, done, at, Bytes,
}
use ipscry.Common.Text.{codes, text_eq}
use ipscry.Common.Int.{minus_one}
use ipscry.Common.Maps.{put}
use ipscry.Hosts.{HostResult}
use ipscry.Tui.{ScanTui, HostPingStats, record_ping, has_host, host_state_changed}

-- `byIP`: the last host with each address
unfoldable pub by_ip : List HostResult → Bytes → Option HostResult
by_ip [] ip = none
by_ip (h ∷ hosts) ip =
    let later = by_ip hosts ip in
    elim later [ some found ↦ some found | none ↦ if text_eq h.ip ip then some h else none ]

-- The three results of the first loop: the rows that were found again, the rows that were not and
-- are dead now, and `hostChangedAt`.
pub record Sorted : Type 0 where
  pub next : List HostResult
  pub dropped : List HostResult
  pub changed_at : List (Bytes × ℕ)

abbrev pub dead : HostResult → HostResult
dead old = record old { status = codes "dead"; latency_ms = minus_one }

-- One row of the table.
unfoldable pub sort_row : (Bytes → Option HostResult) → Bool → ℕ → HostResult → Sorted → Sorted
unfolding host_state_changed
sort_row found watch_populated now old s = elim (found old.ip) [
  | some host ↦ record s {
    next = s.next ++ host ∷ [];
    changed_at =
        if watch_populated && host_state_changed old host
        then put host.ip now s.changed_at
        else s.changed_at;
  }
  | none ↦ record s {
    dropped = s.dropped ++ dead old ∷ [];
    changed_at =
        if not (text_eq old.status (codes "dead"))
        then put old.ip now s.changed_at
        else s.changed_at;
  }
]

unfoldable pub sort_rows :
    (Bytes → Option HostResult) → Bool → ℕ → List HostResult → Sorted → Sorted
unfolding sort_row
sort_rows found watch_populated now [] s = s
sort_rows found watch_populated now (old ∷ rows) s =
    sort_rows found watch_populated now rows (sort_row found watch_populated now old s)

-- The hosts of the scan that no row had, and `hostDiscoveredAt`. `seen` is the addresses of `next`
-- after the first loop.
unfoldable pub fresh_hosts :
    List HostResult
    → Bool
    → ℕ
    → List HostResult
    → List (Bytes × ℕ)
    → List HostResult × List (Bytes × ℕ)
unfolding has_host
fresh_hosts seen watching now [] discovered = ([], discovered)
fresh_hosts seen watching now (h ∷ hosts) discovered =
    let known = has_host h.ip seen in
    let (rest, at) =
      fresh_hosts seen watching now hosts
        (if not known && watching then put h.ip now discovered else discovered) in
    (if known then rest else h ∷ rest, at)

-- `reconcileRescanHostsLocked`, which sets the rows as its caller does with the result
unfoldable pub reconcile_rescan_hosts : ℕ → List HostResult → ScanTui → ScanTui
unfolding by_ip sort_rows fresh_hosts
reconcile_rescan_hosts now hosts t =
    let s =
      sort_rows (by_ip hosts) t.watch_populated now t.hosts
        (record { next = []; dropped = []; changed_at = t.host_changed_at }) in
    let (rest, discovered) =
      fresh_hosts s.next (text_eq t.phase (codes "watch")) now hosts t.host_discovered_at in
    record t {
      hosts = (s.next ++ s.dropped) ++ rest;
      host_changed_at = s.changed_at;
      host_discovered_at = discovered;
    }

-- The loop over the rows in `applyRescanResults` and `Finish`
unfoldable pub record_pings :
    List HostResult → List (Bytes × HostPingStats) → List (Bytes × HostPingStats)
unfolding record_ping
record_pings [] m = m
record_pings (h ∷ hosts) m = record_pings hosts (record_ping h.ip h.latency_ms m)

unfoldable pub apply_rescan_results : ℕ → ℕ → List HostResult → ScanTui → ScanTui
unfolding reconcile_rescan_hosts record_pings
apply_rescan_results now elapsed hosts t =
    let r =
      reconcile_rescan_hosts now hosts
        (record t { rescanning = false; phase = codes "watch"; elapsed = elapsed }) in
    record r { host_total = length hosts; ping_stats = record_pings r.hosts r.ping_stats }

-- `triggerRescan`: whether it starts the scan, and the state with which it does
unfoldable pub trigger_rescan : ScanTui → ScanTui × Bool
trigger_rescan t =
    if t.rescanning || (text_eq t.phase (codes "scanning") || text_eq t.phase (codes "enriching"))
    then (t, false)
    else if not (text_eq t.phase (codes "watch")) && not (text_eq t.phase (codes "done"))
    then (t, false)
    else (
      record t {
        rescanning = true;
        phase = codes "scanning";
        scan_hosts = [];
        host_total = 0;
        watch_populated = false;
        scanned = 0;
        total = length t.watch.ips * length t.watch.ports;
      },
      true,
    )
