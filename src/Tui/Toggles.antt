-- ===== src/Tui/Toggles.antt =====
-- The keys of the watch table that toggle what runs on its own, and the MAC format, in tui.go.
use ipscry.Common.{
  ℕ, ◌≡◌, refl, sym, ◌∙◌, Bool, true, false, not, List, ◌++◌, arith, if◌then◌else◌, Bytes,
}
use ipscry.Common.Text.{codes, text_eq}
use ipscry.Tui.{ScanTui}
use ipscry.Tui.Reports.{enrich_start}

unfoldable pub on_off_label : Bool → Bytes
on_off_label on = if on then codes "on" else codes "off"

-- The message that the footer shows for a while.
abbrev pub with_status : ℕ → Bytes → ScanTui → ScanTui
with_status now message t = record t {
  export_status = message;
  export_err = false;
  export_status_at = now;
}

unfoldable pub toggle_auto_ping : ℕ → ScanTui → ScanTui
unfolding on_off_label
toggle_auto_ping now t =
    let on = not t.auto_ping in
    with_status now (codes "auto-ping " ++ on_off_label on) (record t { auto_ping = on })

unfoldable pub toggle_auto_scan : ℕ → ScanTui → ScanTui
unfolding on_off_label
toggle_auto_scan now t =
    let on = not t.auto_scan in
    with_status now (codes "auto-scan " ++ on_off_label on) (record t { auto_scan = on })

unfoldable pub toggle_arp : ℕ → ScanTui → ScanTui
unfolding on_off_label
toggle_arp now t =
    let on = not t.auto_arp in
    let enrich = record t.watch.enrich { arp_cache = on } in
    with_status now (codes "arp-dead " ++ on_off_label on)
      (record t { auto_arp = on; watch = record t.watch { enrich = enrich } })

-- `cycleMacFormat`, the function
unfoldable pub cycle_format : Bytes → Bytes
cycle_format current =
    if text_eq current (codes "dash")
    then codes "none"
    else if text_eq current (codes "none")
    then codes "colon"
    else codes "dash"

unfoldable pub mac_format_status_label : Bytes → Bytes
mac_format_status_label format =
    if text_eq format (codes "dash")
    then codes "MAC format: dash (aa-bb-cc-dd-ee-ff)"
    else if text_eq format (codes "none")
    then codes "MAC format: none (aabbccddeeff)"
    else codes "MAC format: colon (aa:bb:cc:dd:ee:ff)"

unfoldable pub cycle_mac_format : ℕ → ScanTui → ScanTui
unfolding cycle_format mac_format_status_label
cycle_mac_format now t =
    let format = cycle_format t.watch.mac_format in
    with_status now (mac_format_status_label format)
      (record t { watch = record t.watch { mac_format = format } })

-- What the ARP toggle shows is what the next scan is told.
abbrev pub ArpAgrees : ScanTui → Type 0
ArpAgrees t = t.auto_arp ≡ t.watch.enrich.arp_cache

not-not : (b : Bool) → not b ≡ b → ⊥
not-not true h = ground (arith, h)
not-not false h = ground (arith, h)

-- A scan that started where the toggle and the configuration agree, with that configuration, undoes
-- a toggle that the user makes before it reports the hosts to enrich: the toggle still shows the
-- user's choice, and the next scan is told the opposite. Before that report they agree.
pub enrich_start-toggle_arp :
    (now : ℕ) (ips : List Bytes) (t : ScanTui)
    → ArpAgrees t
    → ArpAgrees (toggle_arp now t)
      × ((enrich_start ips t.watch.enrich (toggle_arp now t)).watch.enrich ≡ t.watch.enrich)
      × ¬ ArpAgrees (enrich_start ips t.watch.enrich (toggle_arp now t))
unfolding enrich_start toggle_arp
enrich_start-toggle_arp now ips t h = (refl, refl, λ same. not-not t.auto_arp (same ∙ sym h))
