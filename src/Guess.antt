-- ===== src/Guess.antt =====
-- What the scanner calls a device and the state of its ARP entry: guessDevice and arpNeighborState of
-- main.go. `strings.ToLower` is the parameter `lower`.
use ipscry.Common.{ℕ, Bool, false, not, ◌&&◌, ◌||◌, List, [], ◌∷◌, ◌++◌, ◌==◌, if◌then◌else◌, Bytes}
use ipscry.Common.Text.{codes, text_eq, contains, join}
use ipscry.Common.Trim.{trim_space}
use ipscry.Common.Int.{is_negative}
use ipscry.Hosts.{PortResult, HostResult, is_empty}

-- The closure `has`
unfoldable pub has_port : List PortResult → ℕ → Bool
has_port [] port = false
has_port (p ∷ ports) port = p.port == port || has_port ports port

abbrev any_port : List PortResult → List ℕ → Bool
any_port ports [] = false
any_port ports (x ∷ xs) = has_port ports x || any_port ports xs

-- The closure `containsText`
unfoldable pub contains_text : Bytes → List Bytes → Bool
contains_text corpus [] = false
contains_text corpus (term ∷ terms) = contains term corpus || contains_text corpus terms

-- The ports and words of a kind of device
abbrev pub matches : List PortResult → Bytes → List ℕ → List Bytes → Bool
matches ports corpus numbers terms = any_port ports numbers || contains_text corpus terms

module _ (lower : Bytes → Bytes) where
  unfoldable pub port_texts : List PortResult → Bytes → Bytes
  port_texts [] corpus = corpus
  port_texts (p ∷ ports) corpus = port_texts ports (
      corpus
      ++ codes " "
      ++ lower (join (codes " ") (p.banner ∷ p.http_server ∷ p.http_title ∷ p.tls_subject ∷ [])))

  unfoldable pub guess_device : List PortResult → Bytes → Bytes
  unfolding port_texts has_port contains_text
  guess_device ports extra =
      let corpus = port_texts ports (lower extra) in
      if matches ports corpus (631 ∷ 9100 ∷ []) (
        codes "printer"
        ∷ codes "jetdirect"
        ∷ codes "cups"
        ∷ codes "laserjet"
        ∷ codes "printdevice"
        ∷ codes "ipp"
        ∷ [])
      then codes "printer"
      else if matches ports corpus (554 ∷ []) (
          codes "camera"
          ∷ codes "rtsp"
          ∷ codes "hikvision"
          ∷ codes "axis"
          ∷ codes "dahua"
          ∷ codes "webcam"
          ∷ codes "networkcamera"
          ∷ codes "onvif"
          ∷ [])
      then codes "camera"
      else if matches ports corpus (2049 ∷ 548 ∷ []) (
          codes "synology"
          ∷ codes "qnap"
          ∷ codes "truenas"
          ∷ codes "freenas"
          ∷ codes "diskstation"
          ∷ codes "mediaserver"
          ∷ [])
      then codes "nas"
      else if matches ports corpus (5060 ∷ 5061 ∷ [])
          (codes "asterisk" ∷ codes "voip" ∷ codes "grandstream" ∷ codes "polycom" ∷ [])
      then codes "voip"
      else if matches ports corpus (902 ∷ []) (
          codes "vmware"
          ∷ codes "esxi"
          ∷ codes "proxmox"
          ∷ codes "hyper-v"
          ∷ codes "hypervisor"
          ∷ [])
      then codes "vm"
      else if matches ports corpus [] (
          codes "cisco"
          ∷ codes "mikrotik"
          ∷ codes "routeros"
          ∷ codes "edgeos"
          ∷ codes "juniper"
          ∷ codes "aruba"
          ∷ codes "fortigate"
          ∷ codes "pfsense"
          ∷ [])
      then codes "network"
      else if matches ports corpus (135 ∷ 139 ∷ 445 ∷ 3389 ∷ 5985 ∷ 5986 ∷ [])
          (codes "microsoft-iis" ∷ codes "windows server" ∷ codes "wsd:" ∷ codes "workstation" ∷ [])
      then codes "windows"
      else if matches ports corpus (1433 ∷ 3306 ∷ 5432 ∷ [])
          (codes "mariadb" ∷ codes "postgresql" ∷ [])
      then codes "db"
      else if matches ports corpus [] (
          codes "samsung"
          ∷ codes "roku"
          ∷ codes "dlna"
          ∷ codes "mediarenderer"
          ∷ codes "googlecast"
          ∷ codes "airplay"
          ∷ [])
      then codes "media"
      else if matches ports corpus (22 ∷ 80 ∷ 443 ∷ 8080 ∷ 8443 ∷ []) []
      then codes "linux/device"
      else codes "unknown"

unfoldable pub arp_neighbor_state : HostResult → Bytes
arp_neighbor_state host =
    if text_eq host.status (codes "dead")
    then codes "Unreachable"
    else if text_eq host.arp_type (codes "dynamic")
    then (if not (is_negative host.latency_ms) || not (is_empty host.open_ports)
        then codes "Reachable"
        else codes "Stale")
    else if text_eq host.arp_type (codes "static")
    then codes "Permanent"
    else if text_eq host.arp_type (codes "invalid")
    then codes "Incomplete"
    else if not (is_empty host.arp_type)
    then host.arp_type
    else codes "-"

unfoldable pub format_arp_state : HostResult → Bytes
unfolding arp_neighbor_state
format_arp_state host =
    if is_empty host.arp_type && host.arp_if_index == 0 then codes "-" else arp_neighbor_state host

unfoldable pub format_status_display : Bytes → Bytes
format_status_display status = if text_eq status (codes "live") then codes "up" else status

unfoldable pub format_guess_display : Bytes → Bytes
format_guess_display guess =
    if text_eq guess (codes "linux/device") then codes "linux/dev" else guess

unfoldable pub format_arp_alias : HostResult → Bytes
format_arp_alias host =
    let name = trim_space host.arp_if_alias in if is_empty name then codes "-" else name

unfoldable pub aip_status : HostResult → Bytes
aip_status host =
    if not (is_empty host.open_ports) || not (is_negative host.latency_ms)
    then codes "up"
    else codes "-"
