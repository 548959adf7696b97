-- ===== src/Catalog.antt =====
-- The ports that the scanner knows: portCatalog of main.go, and parsePortsCSV, sortedPortKeys,
-- serviceLabel and portVendors of dataset.go. The records that encoding/csv reads from the embedded file
-- are an argument, and so is `strings.ToLower` on any text.
pub mod Defaults
use ipscry.Common.{
  ℕ, ◌-◌, Bool, true, false, ◌||◌, Option, none, some, List, [], ◌∷◌, ltb, ◌==◌, if◌then◌else◌,
  length, Bytes,
}
use ipscry.Common.Text.{codes}
use ipscry.Common.Trim.{trim_space}
use Prim.Native.String.{String}
use ipscry.Common.Atoi.{atoi}
use ipscry.Common.Int.{pos}
use ipscry.Ports.{sort_ints}

pub record PortInfo : Type 0 where
  pub service : Bytes
  pub banner : Bool
  pub http : Bool
  pub tls : Bool

-- The combinations of flags that stand in the table
abbrev plain : String → PortInfo
plain s = record { service = codes s; banner = false; http = false; tls = false }

abbrev greets : String → PortInfo
greets s = record { service = codes s; banner = true; http = false; tls = false }

abbrev web : String → PortInfo
web s = record { service = codes s; banner = false; http = true; tls = false }

abbrev secured : String → PortInfo
secured s = record { service = codes s; banner = false; http = false; tls = true }

abbrev web_tls : String → PortInfo
web_tls s = record { service = codes s; banner = false; http = true; tls = true }

-- A map with int keys: `m[port]` and `m[port] = v`
unfoldable pub find_port {ℓ} : {V : Type ℓ} → ℕ → List (ℕ × V) → Option V
find_port port [] = none
find_port port ((p, v) ∷ m) = if p == port then some v else find_port port m

unfoldable pub put_port {ℓ} : {V : Type ℓ} → ℕ → V → List (ℕ × V) → List (ℕ × V)
put_port port v [] = (port, v) ∷ []
put_port port v ((p, w) ∷ m) =
    let rest = put_port port v m in if p == port then (port, v) ∷ m else (p, w) ∷ rest

unfoldable pub port_catalog : List (ℕ × PortInfo)
port_catalog =
    (21, greets "ftp")
    ∷ (22, greets "ssh")
    ∷ (23, greets "telnet")
    ∷ (25, greets "smtp")
    ∷ (53, plain "dns")
    ∷ (80, web "http")
    ∷ (110, greets "pop3")
    ∷ (135, plain "msrpc")
    ∷ (139, plain "netbios")
    ∷ (143, greets "imap")
    ∷ (443, web_tls "https")
    ∷ (445, plain "smb")
    ∷ (515, plain "lpd")
    ∷ (554, plain "rtsp")
    ∷ (587, plain "smtp-submission")
    ∷ (631, web "ipp")
    ∷ (993, secured "imaps")
    ∷ (995, secured "pop3s")
    ∷ (1433, plain "mssql")
    ∷ (1883, plain "mqtt")
    ∷ (3306, plain "mysql")
    ∷ (3389, plain "rdp")
    ∷ (5432, plain "postgres")
    ∷ (5900, plain "vnc")
    ∷ (8000, web "http-alt")
    ∷ (8008, web "http-alt")
    ∷ (8080, web "http-alt")
    ∷ (8443, web_tls "https-alt")
    ∷ (8883, secured "mqtts")
    ∷ (9100, plain "jetdirect")
    ∷ (548, plain "afp")
    ∷ (902, plain "vmware")
    ∷ (2049, plain "nfs")
    ∷ (5060, plain "sip")
    ∷ (5061, secured "sips")
    ∷ (5985, plain "winrm")
    ∷ (5986, secured "winrm-https")
    ∷ []

pub record PortEntry : Type 0 where
  pub service : Bytes
  pub vendors : Bytes

-- A record of the file behind the first one
unfoldable pub add_entry :
    (Bytes → Bytes) → List Bytes → List (ℕ × PortEntry) → List (ℕ × PortEntry)
unfolding put_port
add_entry lower (number ∷ service ∷ more) out =
    let entry : PortEntry = record {
      service = lower (trim_space service);
      vendors = elim more [ [] ↦ [] | vendors ∷ rest ↦ trim_space vendors ];
    } in
    elim (atoi (trim_space number)) [
      | some (pos port) ↦ if port == 0 || ltb 65535 port then out else put_port port entry out
      | _ ↦ out
    ]
add_entry lower _ out = out

unfoldable pub add_records :
    (Bytes → Bytes) → List (List Bytes) → List (ℕ × PortEntry) → List (ℕ × PortEntry)
unfolding add_entry
add_records lower [] out = out
add_records lower (r ∷ records) out = add_records lower records (add_entry lower r out)

-- `none` where reading the file fails
unfoldable pub parse_ports_csv : (Bytes → Bytes) → Option (List (List Bytes)) → List (ℕ × PortEntry)
unfolding add_records
parse_ports_csv lower none = []
parse_ports_csv lower (some []) = []
parse_ports_csv lower (some (header ∷ records)) = add_records lower records []

unfoldable pub keys {ℓ} : {V : Type ℓ} → List (ℕ × V) → List ℕ
keys [] = []
keys ((p, v) ∷ m) = p ∷ keys m

unfoldable pub sorted_port_keys {ℓ} : {V : Type ℓ} → List (ℕ × V) → List ℕ
unfolding keys sort_ints
sorted_port_keys m = sort_ints (keys m)

-- `init`: `defaultScanPorts`
unfoldable pub default_scan_ports : (Bytes → Bytes) → Option (List (List Bytes)) → List ℕ
unfolding parse_ports_csv sorted_port_keys
default_scan_ports lower records = sorted_port_keys (parse_ports_csv lower records)

unfoldable pub catalog_label : Option PortInfo → Bytes
catalog_label none = codes "unknown"
catalog_label (some info) = info.service

unfoldable pub service_label : List (ℕ × PortEntry) → ℕ → Bytes
unfolding find_port catalog_label
service_label ports port = elim (find_port port ports) [
  | none ↦ catalog_label (find_port port port_catalog)
  | some e ↦
      if length e.service == 0 then catalog_label (find_port port port_catalog) else e.service
]

unfoldable pub port_vendors : List (ℕ × PortEntry) → ℕ → Bytes
unfolding find_port
port_vendors ports port = elim (find_port port ports) [ none ↦ [] | some e ↦ e.vendors ]
