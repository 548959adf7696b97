-- ===== src/Display.antt =====
-- The tables that main.go prints: printTable, printAIPTable and the labels in their cells. The writer's
-- columns are outside, and so are the display width of a text (runewidth) and its cut at a width, which are
-- arguments, as is the replacement of control characters (strings.Map).
pub mod Cells
use ipscry.Common.{
  ℕ, zero, suc, ◌+◌, ◌-◌, Bool, true, false, not, ◌&&◌, List, [], ◌∷◌, ◌++◌, map, leb, ◌==◌,
  if◌then◌else◌, length, take, Bytes,
}
use ipscry.Common.Text.{codes, text_eq, has_prefix, join}
use ipscry.Common.Trim.{trim_space}
use ipscry.Common.Int.{ℤ, pos, negsuc}
use ipscry.Hosts.{PortResult, HostResult, is_empty}
use ipscry.Csv.{itoa, format_latency}
use ipscry.Macs.{format_mac}
use ipscry.Guess.{
  arp_neighbor_state, format_arp_state, format_status_display, format_guess_display, aip_status,
}

unfoldable pub or_dash : Bytes → Bytes
or_dash value = if length value == 0 then codes "-" else value

unfoldable pub join_ints : List ℕ → Bytes
unfolding join itoa
join_ints values = join (codes ",") (map itoa values)

unfoldable pub format_latency_display : ℤ → Bytes
unfolding itoa
format_latency_display (pos ms) = itoa ms
format_latency_display (negsuc n) = codes "-"

unfoldable pub format_ports_display : List PortResult → Bytes
unfolding join itoa
format_ports_display [] = codes "-"
format_ports_display (p ∷ ports) = join (codes ",") (map (λ q. itoa q.port) (p ∷ ports))

-- `strings.ReplaceAll`, with the bytes of an occurrence that are left to skip
unfoldable pub replace_onto : Bytes → Bytes → ℕ → Bytes → Bytes
unfolding has_prefix
replace_onto old new skip [] = []
replace_onto old new (suc skip) (c ∷ s) = replace_onto old new skip s
replace_onto old new zero (c ∷ s) =
    let found = replace_onto old new (length old - 1) s in
    let rest = replace_onto old new 0 s in if has_prefix old (c ∷ s) then new ++ found else c ∷ rest

unfoldable pub replace_all : Bytes → Bytes → Bytes → Bytes
unfolding replace_onto
replace_all s old new = replace_onto old new 0 s

unfoldable pub short_vendor : Bytes → Bytes
unfolding replace_all
short_vendor vendor =
    let a = replace_all vendor (codes ", Inc.") [] in
    let b = replace_all a (codes ", Inc") [] in
    let c = replace_all b (codes " Inc.") [] in
    let d = replace_all c (codes " Corporation") (codes " Corp") in
    replace_all d (codes " Systems") (codes " Sys")

unfoldable pub format_arp_index : HostResult → Bytes
unfolding itoa
format_arp_index host = if host.arp_if_index == 0 then codes "-" else itoa host.arp_if_index

unfoldable pub format_arp_neighbor_display : HostResult → Bytes
unfolding arp_neighbor_state itoa trim_space
format_arp_neighbor_display host =
    let state = arp_neighbor_state host in
    let name = trim_space host.arp_if_alias in
    if is_empty host.arp_type && host.arp_if_index == 0
    then codes "-"
    else if not (host.arp_if_index == 0)
    then (if not (is_empty name)
        then state ++ (codes " " ++ (name ++ (codes " " ++ itoa host.arp_if_index)))
        else state ++ (codes " " ++ itoa host.arp_if_index))
    else if not (is_empty name)
    then state ++ (codes " " ++ name)
    else state

unfoldable pub aip_ping : HostResult → Bytes
unfolding format_latency
aip_ping host = format_latency host.latency_ms

-- `trunc`, which counts bytes
unfoldable pub trunc : Bytes → ℕ → Bytes
trunc s max =
    if max == 0
    then []
    else if leb (length s) max
    then s
    else if leb max 3
    then take max s
    else take (max - 3) s ++ codes "..."

-- What the packages unicode and runewidth do with a text
pub record Widths : Type 0 where
  pub no_control : Bytes → Bytes
  pub string_width : Bytes → ℕ
  pub truncate : Bytes → ℕ → Bytes → Bytes

module _ (w : Widths) where
  unfoldable pub trunc_display : Bytes → ℕ → Bytes
  trunc_display s max =
      let clean = w.no_control s in
      if max == 0
      then []
      else if leb (w.string_width clean) max
      then clean
      else w.truncate clean max (if leb max 3 then [] else codes "...")

  unfoldable pub format_vendor_display : Bytes → Bytes
  unfolding short_vendor trunc_display
  format_vendor_display vendor =
      if length vendor == 0 then codes "-" else trunc_display (short_vendor vendor) 24

  unfoldable pub format_name_display : Bytes → Bytes
  unfolding or_dash trunc_display
  format_name_display name = trunc_display (or_dash name) 28

  unfoldable pub format_arp_alias_cell : HostResult → Bytes
  unfolding trunc_display trim_space
  format_arp_alias_cell host =
      let name = trim_space host.arp_if_alias in
      if is_empty name then codes "-" else trunc_display name 24

  -- The columns that a table shows
  pub record Shown : Type 0 where
    pub vendor : Bool
    pub status : Bool
    pub arp : Bool

  -- The loop over the hosts
  unfoldable pub show_for : List HostResult → Shown → Shown
  unfolding text_eq
  show_for [] s = s
  show_for (h ∷ hosts) s = show_for hosts (record {
    vendor = if not (is_empty h.mac_vendor) then true else s.vendor;
    status = if text_eq h.status (codes "arp") then true else s.status;
    arp = if not (is_empty h.arp_type) then true else s.arp;
  })

  abbrev pub if_shown : Bool → List Bytes → List Bytes
  if_shown b cells = if b then cells else []

  unfoldable pub table_header : Shown → List Bytes
  table_header s =
      (codes "IP" ∷ codes "MAC" ∷ codes "ms" ∷ codes "Name" ∷ [])
      ++ (if_shown s.status (codes "Stat" ∷ [])
          ++ (if_shown s.arp (codes "State" ∷ codes "Alias" ∷ codes "Index" ∷ [])
              ++ (if_shown s.vendor (codes "Mfg" ∷ []) ++ (codes "Type" ∷ codes "Ports" ∷ []))))

  unfoldable pub table_row : Shown → Bytes → HostResult → List Bytes
  unfolding format_ports_display or_dash format_mac format_latency_display format_name_display
      format_status_display format_arp_state format_arp_alias_cell format_arp_index
      format_vendor_display format_guess_display
  table_row s mac_format host =
      (host.ip
        ∷ or_dash (format_mac host.mac mac_format)
        ∷ format_latency_display host.latency_ms
        ∷ format_name_display host.hostname
        ∷ [])
      ++ (if_shown s.status (or_dash (format_status_display host.status) ∷ [])
          ++ (if_shown s.arp
                (format_arp_state host ∷ format_arp_alias_cell host ∷ format_arp_index host ∷ [])
              ++ (if_shown s.vendor (format_vendor_display host.mac_vendor ∷ [])
                  ++ (format_guess_display host.guess
                      ∷ format_ports_display host.open_ports
                      ∷ []))))

  unfoldable pub table_rows : Shown → Bytes → List HostResult → List (List Bytes)
  unfolding table_row
  table_rows s mac_format hosts = map (table_row s mac_format) hosts

  -- The lines of `printTable` behind its first: none without hosts
  unfoldable pub print_table : Bytes → List HostResult → List (List Bytes)
  unfolding show_for table_header table_rows
  print_table mac_format [] = []
  print_table mac_format (h ∷ hosts) =
      let s = show_for (h ∷ hosts) (record { vendor = false; status = false; arp = false }) in
      table_header s ∷ table_rows s mac_format (h ∷ hosts)

  unfoldable pub aip_row : Bytes → HostResult → List Bytes
  unfolding aip_status format_name_display format_vendor_display or_dash format_mac aip_ping
  aip_row mac_format host =
      aip_status host
      ∷ format_name_display host.hostname
      ∷ host.ip
      ∷ format_vendor_display host.mac_vendor
      ∷ or_dash (format_mac host.mac mac_format)
      ∷ aip_ping host
      ∷ []

  unfoldable pub print_aip_table : Bytes → List HostResult → List (List Bytes)
  unfolding aip_row
  print_aip_table mac_format [] = []
  print_aip_table mac_format (h ∷ hosts) =
      (codes "Stat" ∷ codes "Name" ∷ codes "IP" ∷ codes "Mfg" ∷ codes "MAC" ∷ codes "Ms" ∷ [])
      ∷ map (aip_row mac_format) (h ∷ hosts)
