-- ===== src/Tui/Steps.antt =====
-- The methods of scanTUI as steps on the table, and what each of them keeps.
use ipscry.Common.{
  ℕ, ◌≡◌, refl, sym, ap, ◌∙◌, inl, inr, Bool, false, ◌&&◌, ◌||◌, Option, none, some, List, [], ◌∷◌,
  ◌++◌, map, append-nil, append_assoc, arith, Bool-cases, Option-cases, Bytes,
}
use ipscry.Common.Text.{codes, text_eq}
use ipscry.Common.Int.{ℤ}
use ipscry.Common.Maps.{find}
use ipscry.Hosts.{HostResult, ArpCacheEntry}
use ipscry.Tui.{EnrichConfig, ScanTui, HostPingStats, has_host, host_state_changed}
use mathlib.Core.Path.{subst}
use ipscry.Tui.Reports.{
  start, port_progress, port_open, enrich_start, host_ready, http_refresh, add_discover_placeholder,
  upsert_host, remove_host, find_host, drop_row,
}
use ipscry.Tui.Toggles.{toggle_auto_ping, toggle_auto_scan, toggle_arp, cycle_mac_format}
use ipscry.Tui.Scroll.{ScrollKey, scroll}
use ipscry.Tui.Rescan.{trigger_rescan, apply_rescan_results}
use ipscry.Tui.Rescan.Rows.{IsDistinct}
use ipscry.Tui.Rescan.Unique.{reconcile-IsDistinct}
use ipscry.Tui.Probe.{
  probe, apply_fast_probe, Ticked, answered, tick_row, tick_rows, arp_row, arp_rows,
  apply_arp_from_cache, listed, begin_ping_tick, apply_ping_tick,
}
use ipscry.Tui.Escalation.{probe-IsDistinct}
use ipscry.Tui.Distinct.{
  update_host-IsDistinct, snoc-IsDistinct, place_host-IsDistinct, upsert_placeholder-IsDistinct,
  add_placeholders-IsDistinct, drop_row-IsDistinct,
}

-- A list has distinct addresses where another with the same addresses has.
abbrev ips : List HostResult → List Bytes
ips hosts = map (λ h. h.ip) hosts

abbrev is_in : Bytes → List Bytes → Bool
is_in x [] = false
is_in x (y ∷ ys) = text_eq y x || is_in x ys

abbrev AreDistinct : List Bytes → Type 0
AreDistinct [] = Unit
AreDistinct (x ∷ xs) = (is_in x xs ≡ false) × AreDistinct xs

has_host-ips : (x : Bytes) (hosts : List HostResult) → has_host x hosts ≡ is_in x (ips hosts)
unfolding has_host
has_host-ips x [] = refl
has_host-ips x (h ∷ hosts) = ap (λ b. text_eq h.ip x || b) (has_host-ips x hosts)

to_ips : (hosts : List HostResult) → IsDistinct hosts → AreDistinct (ips hosts)
to_ips [] d = tt
to_ips (h ∷ hosts) (new, d) = (sym (has_host-ips h.ip hosts) ∙ new, to_ips hosts d)

from_ips : (hosts : List HostResult) → AreDistinct (ips hosts) → IsDistinct hosts
from_ips [] d = tt
from_ips (h ∷ hosts) (new, d) = (has_host-ips h.ip hosts ∙ new, from_ips hosts d)

same_ips : (a b : List HostResult) → ips a ≡ ips b → IsDistinct a → IsDistinct b
same_ips a b e d = from_ips b (subst AreDistinct e (to_ips a d))

ips-append : (a b : List HostResult) → ips (a ++ b) ≡ ips a ++ ips b
ips-append [] b = refl
ips-append (h ∷ a) b = ap (◌∷◌ h.ip) (ips-append a b)

arp_row-ip :
    (v : Bytes → Bytes) (arp : List (Bytes × ArpCacheEntry)) (h : HostResult)
    → (arp_row v arp h).ip ≡ h.ip
unfolding arp_row apply_arp_from_cache
arp_row-ip v arp h = elim (Option-cases (find h.ip arp)) [
  | inl e ↦ rw (e, arp_row) refl
  | inr (entry, e) ↦ rw (e, arp_row) (ground arith)
]

arp_rows-ips :
    (v : Bytes → Bytes) (arp : List (Bytes × ArpCacheEntry)) (hosts : List HostResult)
    → ips (arp_rows v arp hosts) ≡ ips hosts
unfolding arp_rows
arp_rows-ips v arp [] = refl
arp_rows-ips v arp (h ∷ hosts) =
    ap (λ i. i ∷ ips (arp_rows v arp hosts)) (arp_row-ip v arp h)
    ∙ ap (◌∷◌ h.ip) (arp_rows-ips v arp hosts)

tick_row-ip :
    (o : Option ℤ) (h : HostResult) (m : List (Bytes × HostPingStats))
    → (tick_row o h m).0.ip ≡ h.ip
unfolding tick_row answered
tick_row-ip none h m = refl
tick_row-ip (some ms) h m = refl

snoc_ips :
    (a : List HostResult) (after : HostResult) (ip : Bytes) (rest : List Bytes)
    → after.ip ≡ ip
    → ips (a ++ after ∷ []) ++ rest ≡ ips a ++ ip ∷ rest
snoc_ips a after ip rest e =
    ap (λ i. i ++ rest) (ips-append a (after ∷ []))
    ∙ append_assoc (ips a) (after.ip ∷ []) rest
    ∙ ap (λ i. ips a ++ i ∷ rest) e

tick_rows-ips :
    (now : ℕ) (w : Bool) (batch : List Bytes) (pings : List (Bytes × ℤ)) (rows : List HostResult)
    (s : Ticked)
    → ips (tick_rows now w batch pings rows s).hosts ≡ ips s.hosts ++ ips rows
unfolding tick_rows
tick_rows-ips now w batch pings [] s = sym (append-nil (ips s.hosts))
tick_rows-ips now w batch pings (h ∷ rows) s = elim (Bool-cases (listed h.ip batch)) [
  | inl e ↦
      rw (e, tick_rows)
        (tick_rows-ips now w batch pings rows _
          ∙ snoc_ips s.hosts _ h.ip (ips rows) (tick_row-ip (find h.ip pings) h s.ping_stats))
  | inr e ↦
      rw (e, tick_rows)
        (tick_rows-ips now w batch pings rows _ ∙ snoc_ips s.hosts h h.ip (ips rows) refl)
]

apply_ping_tick-ips :
    (v : Bytes → Bytes) (now : ℕ) (batch : List Bytes) (arp : List (Bytes × ArpCacheEntry))
    (pings : List (Bytes × ℤ)) (t : ScanTui)
    → ips (apply_ping_tick v now batch arp pings t).hosts ≡ ips t.hosts
unfolding apply_ping_tick
apply_ping_tick-ips v now [] arp pings t = refl
apply_ping_tick-ips v now (ip ∷ batch) arp pings t =
    tick_rows-ips now t.watch_populated (ip ∷ batch) pings (arp_rows v arp t.hosts) _
    ∙ arp_rows-ips v arp t.hosts

apply_fast_probe-IsDistinct :
    (now : ℕ) (pings : List (Bytes × ℤ)) (suspects : List Bytes) (t : ScanTui)
    → IsDistinct t.hosts
    → IsDistinct (apply_fast_probe now pings suspects t).hosts
unfolding apply_fast_probe
apply_fast_probe-IsDistinct now pings [] t d = d
apply_fast_probe-IsDistinct now pings (ip ∷ rest) t d =
    apply_fast_probe-IsDistinct now pings rest (probe now pings ip t)
      (probe-IsDistinct now pings ip t d)

-- What the scan, its goroutines and the keys do to the table, each under the mutex. A rescan brings
-- the hosts of a scan, which lists each address once.
pub data Step (mac_vendor : Bytes → Bytes) : ScanTui → ScanTui → Type 0 where
  started :
      (target : Bytes) (ports : ℕ) (enrich : EnrichConfig) (t : ScanTui)
      → Step mac_vendor t (start target ports enrich t)
  progressed : (scanned total : ℕ) (t : ScanTui) → Step mac_vendor t (port_progress scanned total t)
  opened : (ip : Bytes) (ms : ℤ) (t : ScanTui) → Step mac_vendor t (port_open ip ms t)
  enriching :
      (ips : List Bytes) (enrich : EnrichConfig) (t : ScanTui)
      → Step mac_vendor t (enrich_start ips enrich t)
  readied : (h : HostResult) (t : ScanTui) → Step mac_vendor t (host_ready h t)
  refreshed : (now : ℕ) (h : HostResult) (t : ScanTui) → Step mac_vendor t (http_refresh now h t)
  discovered :
      (now : ℕ) (ip : Bytes) (ms : ℤ) (t : ScanTui)
      → Step mac_vendor t (add_discover_placeholder now ip ms t)
  upserted : (now : ℕ) (h : HostResult) (t : ScanTui) → Step mac_vendor t (upsert_host now h t)
  removed : (ip : Bytes) (t : ScanTui) → Step mac_vendor t (remove_host ip t)
  scrolled : (key : ScrollKey) (rows : ℕ) (t : ScanTui) → Step mac_vendor t (scroll key rows t)
  toggled_ping : (now : ℕ) (t : ScanTui) → Step mac_vendor t (toggle_auto_ping now t)
  toggled_scan : (now : ℕ) (t : ScanTui) → Step mac_vendor t (toggle_auto_scan now t)
  toggled_arp : (now : ℕ) (t : ScanTui) → Step mac_vendor t (toggle_arp now t)
  cycled : (now : ℕ) (t : ScanTui) → Step mac_vendor t (cycle_mac_format now t)
  rescan_begun : (t : ScanTui) → Step mac_vendor t (trigger_rescan t).0
  rescanned :
      (now elapsed : ℕ) (hosts : List HostResult) (t : ScanTui)
      → IsDistinct hosts
      → Step mac_vendor t (apply_rescan_results now elapsed hosts t)
  chosen : (t : ScanTui) → Step mac_vendor t (begin_ping_tick t).1
  ticked :
      (now : ℕ) (batch : List Bytes) (arp : List (Bytes × ArpCacheEntry)) (pings : List (Bytes × ℤ))
      (t : ScanTui)
      → Step mac_vendor t (apply_ping_tick mac_vendor now batch arp pings t)
  probed :
      (now : ℕ) (pings : List (Bytes × ℤ)) (suspects : List Bytes) (t : ScanTui)
      → Step mac_vendor t (apply_fast_probe now pings suspects t)

refreshed-IsDistinct :
    (now : ℕ) (h : HostResult) (t : ScanTui)
    → IsDistinct t.hosts
    → IsDistinct (http_refresh now h t).hosts
unfolding http_refresh
refreshed-IsDistinct now h t d = elim (Option-cases (find_host h.ip t.hosts)) [
  | inl e ↦ rw (e, http_refresh) d
  | inr (host, e) ↦ rw (e, http_refresh) (update_host-IsDistinct h.ip _ t.hosts (λ g eq. refl) d)
]

discovered-IsDistinct :
    (now : ℕ) (ip : Bytes) (ms : ℤ) (t : ScanTui)
    → IsDistinct t.hosts
    → IsDistinct (add_discover_placeholder now ip ms t).hosts
unfolding add_discover_placeholder
discovered-IsDistinct now ip ms t d = elim (Bool-cases (has_host ip t.hosts)) [
  | inl e ↦ rw (e) d
  | inr e ↦ rw (e) (snoc-IsDistinct t.hosts _ d e)
]

upserted-IsDistinct :
    (now : ℕ) (h : HostResult) (t : ScanTui)
    → IsDistinct t.hosts
    → IsDistinct (upsert_host now h t).hosts
unfolding upsert_host
upserted-IsDistinct now h t d =
    let placed = place_host-IsDistinct h t.hosts d in
    elim (Option-cases (find_host h.ip t.hosts)) [
      | inl e ↦
          rw (e, upsert_host)
            (elim (Bool-cases (text_eq t.phase (codes "watch"))) [
              | inl w ↦ rw (w) placed
              | inr w ↦ rw (w) placed
            ])
      | inr (before, e) ↦
          rw (e, upsert_host)
            (elim (Bool-cases (t.watch_populated && host_state_changed before h)) [
              | inl w ↦ rw (w) placed
              | inr w ↦ rw (w) placed
            ])
    ]

removed-IsDistinct :
    (ip : Bytes) (t : ScanTui) → IsDistinct t.hosts → IsDistinct (remove_host ip t).hosts
unfolding remove_host
removed-IsDistinct ip t d = elim (Option-cases (drop_row ip t.hosts)) [
  | inl e ↦ rw (e, remove_host) d
  | inr (rest, e) ↦ rw (e, remove_host) (drop_row-IsDistinct ip t.hosts rest e d).0
]

rescanning-IsDistinct : (t : ScanTui) → IsDistinct t.hosts → IsDistinct (trigger_rescan t).0.hosts
unfolding trigger_rescan
rescanning-IsDistinct t d = ground (arith, d)

chosen-IsDistinct : (t : ScanTui) → IsDistinct t.hosts → IsDistinct (begin_ping_tick t).1.hosts
unfolding begin_ping_tick
chosen-IsDistinct t d = ground (arith, d)

pub step-IsDistinct :
    (v : Bytes → Bytes) (t u : ScanTui) → Step v t u → IsDistinct t.hosts → IsDistinct u.hosts
unfolding start port_progress port_open enrich_start host_ready scroll toggle_auto_ping
    toggle_auto_scan toggle_arp cycle_mac_format apply_rescan_results
step-IsDistinct v _ _ (started a b c t) d = d
step-IsDistinct v _ _ (progressed a b t) d = d
step-IsDistinct v _ _ (opened ip ms t) d = upsert_placeholder-IsDistinct ip _ t.hosts d
step-IsDistinct v _ _ (enriching is enrich t) d =
    add_placeholders-IsDistinct t.scan_hosts is t.hosts d
step-IsDistinct v _ _ (readied h t) d = place_host-IsDistinct h t.hosts d
step-IsDistinct v _ _ (refreshed now h t) d = refreshed-IsDistinct now h t d
step-IsDistinct v _ _ (discovered now ip ms t) d = discovered-IsDistinct now ip ms t d
step-IsDistinct v _ _ (upserted now h t) d = upserted-IsDistinct now h t d
step-IsDistinct v _ _ (removed ip t) d = removed-IsDistinct ip t d
step-IsDistinct v _ _ (scrolled key rows t) d = d
step-IsDistinct v _ _ (toggled_ping now t) d = d
step-IsDistinct v _ _ (toggled_scan now t) d = d
step-IsDistinct v _ _ (toggled_arp now t) d = d
step-IsDistinct v _ _ (cycled now t) d = d
step-IsDistinct v _ _ (rescan_begun t) d = rescanning-IsDistinct t d
step-IsDistinct v _ _ (rescanned now elapsed hosts t new) d =
    reconcile-IsDistinct now hosts
      (record t { rescanning = false; phase = codes "watch"; elapsed = elapsed }) new d
step-IsDistinct v _ _ (chosen t) d = chosen-IsDistinct t d
step-IsDistinct v _ _ (ticked now batch arp pings t) d =
    same_ips t.hosts _ (sym (apply_ping_tick-ips v now batch arp pings t)) d
step-IsDistinct v _ _ (probed now pings is t) d = apply_fast_probe-IsDistinct now pings is t d
