-- ===== src/Session/Rows.antt =====
-- The rows of the table under Finish, the keys and the hosts that are looked up.
use ipscry.Common.{
  ℕ, ◌≡◌, refl, sym, ap, ◌∙◌, inl, inr, Bool, false, ◌||◌, Option, none, List, [], ◌∷◌, arith,
  Bool-cases, Bytes,
}
use ipscry.Common.Text.{text_eq, text_eq_iff}
use ipscry.Common.Int.{ℤ}
use ipscry.Common.Maps.{find}
use ipscry.Common.Order.{any, any-sort, insert_by, sort_by}
use ipscry.Hosts.{PortResult, HostResult, ArpCacheEntry}
use ipscry.Macs.{Ouis}
use ipscry.Keys.{TuiKey}
use ipscry.Enrich.{Lookups, should_include_host}
use ipscry.Ipv4.{less_address}
use ipscry.ScanNetwork.{sort_hosts}
use ipscry.Tui.{ScanTui, TuiWatchConfig, has_host}
use ipscry.Tui.Rescan.Rows.{IsDistinct}
use ipscry.Tui.Steps.{Step, step-IsDistinct}
use ipscry.Tui.Scroll.{ScrollKey}
use ipscry.Session.{
  finish, ExportFormat, Exported, exported, export_failed, export_results, with_export, do_export,
  Pressed, left, stays, rescans, press, discovered_table,
}

has_host-any :
    (x : Bytes) (hosts : List HostResult) → has_host x hosts ≡ any (λ h. text_eq h.ip x) hosts
unfolding has_host
has_host-any x [] = refl
has_host-any x (h ∷ hosts) = ap (λ b. text_eq h.ip x || b) (has_host-any x hosts)

module _ (before : HostResult → HostResult → Bool) where
  has_host-insert :
      (x : Bytes) (h : HostResult) (hosts : List HostResult)
      → has_host x (insert_by before h hosts) ≡ (text_eq h.ip x || has_host x hosts)
  unfolding has_host insert_by
  has_host-insert x h [] = refl
  has_host-insert x h (g ∷ hosts) = ground (arith, has_host-insert x h hosts)

  insert-IsDistinct :
      (h : HostResult) (hosts : List HostResult)
      → has_host h.ip hosts ≡ false
      → IsDistinct hosts
      → IsDistinct (insert_by before h hosts)
  unfolding has_host insert_by
  insert-IsDistinct h [] new d = (refl, tt)
  insert-IsDistinct h (g ∷ hosts) new (here, d) = elim (Bool-cases (before g h)) [
    | inl e ↦
        let apart : text_eq h.ip g.ip ≡ false =
          ground (arith, new, text_eq_iff h.ip g.ip, text_eq_iff g.ip h.ip) in
        rw (e) (
          has_host-insert g.ip h hosts ∙ rw (apart) here,
          insert-IsDistinct h hosts (ground (arith, new)) d,
        )
    | inr e ↦ rw (e) (new, (here, d))
  ]

  sort-IsDistinct : (hosts : List HostResult) → IsDistinct hosts → IsDistinct (sort_by before hosts)
  unfolding sort_by
  sort-IsDistinct [] d = tt
  sort-IsDistinct (h ∷ hosts) (new, d) =
      insert-IsDistinct h (sort_by before hosts)
        (has_host-any h.ip (sort_by before hosts)
          ∙ any-sort before (λ g. text_eq g.ip h.ip) hosts
          ∙ sym (has_host-any h.ip hosts)
          ∙ new)
        (sort-IsDistinct hosts d)

-- The table that a key leaves
unfoldable pub table_of : ScanTui → Pressed → ScanTui
table_of t left = t
table_of t (stays u) = u
table_of t (rescans (u, starts)) = u

with_export-IsDistinct :
    (now : ℕ) (e : Exported) (t : ScanTui)
    → IsDistinct t.hosts
    → IsDistinct (with_export now e t).hosts
unfolding with_export
with_export-IsDistinct now (exported path) t d = d
with_export-IsDistinct now (export_failed message) t d = d

pub step_keeps : (t u : ScanTui) → Step (λ m. m) t u → IsDistinct t.hosts → IsDistinct u.hosts
step_keeps t u step d = step-IsDistinct (λ m. m) t u step d

pub press-IsDistinct :
    (parse : Bytes → Option Bytes) (save : ExportFormat → List HostResult → Bytes → Exported)
    (now rows : ℕ) (key : TuiKey) (t : ScanTui)
    → IsDistinct t.hosts
    → IsDistinct (table_of t (press parse save now rows key t)).hosts
unfolding press table_of do_export
press-IsDistinct parse save now rows TuiKey.key_none t d = d
press-IsDistinct parse save now rows TuiKey.key_exit t d = d
press-IsDistinct parse save now rows TuiKey.key_csv t d =
    with_export-IsDistinct now (export_results parse save ExportFormat.csv t) t d
press-IsDistinct parse save now rows TuiKey.key_json t d =
    with_export-IsDistinct now (export_results parse save ExportFormat.json t) t d
press-IsDistinct parse save now rows TuiKey.key_txt t d =
    with_export-IsDistinct now (export_results parse save ExportFormat.txt t) t d
press-IsDistinct parse save now rows TuiKey.key_mac_format t d =
    step_keeps t _ (Step.cycled now t) d
press-IsDistinct parse save now rows TuiKey.key_auto_ping t d =
    step_keeps t _ (Step.toggled_ping now t) d
press-IsDistinct parse save now rows TuiKey.key_auto_scan t d =
    step_keeps t _ (Step.toggled_scan now t) d
press-IsDistinct parse save now rows TuiKey.key_arp t d = step_keeps t _ (Step.toggled_arp now t) d
press-IsDistinct parse save now rows TuiKey.key_up t d =
    step_keeps t _ (Step.scrolled ScrollKey.key_up rows t) d
press-IsDistinct parse save now rows TuiKey.key_down t d =
    step_keeps t _ (Step.scrolled ScrollKey.key_down rows t) d
press-IsDistinct parse save now rows TuiKey.key_page_up t d =
    step_keeps t _ (Step.scrolled ScrollKey.key_page_up rows t) d
press-IsDistinct parse save now rows TuiKey.key_page_down t d =
    step_keeps t _ (Step.scrolled ScrollKey.key_page_down rows t) d
press-IsDistinct parse save now rows TuiKey.key_top t d =
    step_keeps t _ (Step.scrolled ScrollKey.key_top rows t) d
press-IsDistinct parse save now rows TuiKey.key_bottom t d =
    step_keeps t _ (Step.scrolled ScrollKey.key_bottom rows t) d
press-IsDistinct parse save now rows TuiKey.key_rescan t d = step_keeps t _ (Step.rescan_begun t) d

pub finish-IsDistinct :
    (parse : Bytes → Option Bytes) (elapsed : ℕ) (watch : TuiWatchConfig) (hosts : List HostResult)
    (t : ScanTui)
    → IsDistinct hosts
    → IsDistinct (finish parse elapsed watch hosts t).hosts
unfolding finish sort_hosts
finish-IsDistinct parse elapsed watch hosts t d =
    sort-IsDistinct (λ a b. less_address parse a.ip b.ip) hosts d

pub discovered-IsDistinct :
    (net : Lookups) (lower : Bytes → Bytes) (ouis : Ouis) (now : ℕ) (watch : TuiWatchConfig)
    (ip : Bytes) (latency : ℤ) (discovery : Bool) (arp : List (Bytes × ArpCacheEntry))
    (ports : List PortResult) (t : ScanTui)
    → IsDistinct t.hosts
    → IsDistinct (discovered_table net lower ouis now watch ip latency discovery arp ports t).hosts
unfolding discovered_table
discovered-IsDistinct net lower ouis now watch ip latency discovery arp ports t d =
    elim (Bool-cases
      (should_include_host ports discovery watch.enrich.arp_cache (find ip arp) none)) [
        | inl e ↦ rw (e) (step_keeps t _ (Step.upserted now _ t) d)
        | inr e ↦ rw (e) (step_keeps t _ (Step.removed ip t) d)
      ]
