-- ===== src/Config.antt =====
-- parseScanArgs of main.go, with parseWebhookURL, and the part of run that lists the addresses to scan.
-- The flag package, net/url and net.ParseCIDR are arguments.
pub mod Flags
pub mod Parts
pub mod Checked
use ipscry.Common.{
  ℕ, ◌+◌, ◌-◌, Bool, false, not, ◌&&◌, ◌||◌, Option, none, some, List, [], ◌∷◌, ◌++◌, ltb, leb,
  ◌==◌, if◌then◌else◌, length, Bytes,
}
use ipscry.Common.Text.{codes, join}
use ipscry.Common.Trim.{trim_space}
use ipscry.Common.Int.{ℤ, pos, negsuc}
use ipscry.Ports
use ipscry.Ports.{PortsError, PortsResult, parse_ports}
use ipscry.Args.{
  ArgsError, ArgsResult, normal, bad_args, one_of, normalize_scan_args, DiscoveryConfig,
  DiscoveryResult, chosen, unknown_protocol, parse_discovery_input,
}
use ipscry.Interfaces.{LocalResult, local, no_interfaces, no_adapter}

-- What the flag package reads: the values of the flags, and the names that `Visit` shows
pub record FlagValues : Type 0 where
  pub ports : Bytes
  pub timeout : ℤ
  pub concurrency : ℤ
  pub no_tui : Bool
  pub snmp_community : Bytes
  pub json : Bytes
  pub csv : Bytes
  pub log : Bytes
  pub webhook : Bytes
  pub progress_webhook : Bytes
  pub stream_json : Bool
  pub mac_format : Bytes
  pub arp_dead : Bool
  pub arp_detail : Bool
  pub aip : Bool
  pub http_timeout : ℤ
  pub discovery : Bytes
  pub discovery_timeout : ℤ
  pub names_set : List Bytes

pub record ScanConfig : Type 0 where
  pub target : Bytes
  pub targets : List Bytes
  pub ports : List ℕ
  pub timeout : ℤ
  pub concurrency : ℤ
  pub snmp_community : Bytes
  pub tui : Bool
  pub progress : Bool
  pub json_path : Bytes
  pub csv_path : Bytes
  pub log_path : Bytes
  pub webhook_url : Bytes
  pub progress_url : Bytes
  pub stream_json : Bool
  pub mac_format : Bytes
  pub arp_cache : Bool
  pub aip : Bool
  pub tui_arp_detail : Bool
  pub http_timeout : ℤ
  pub discovery : DiscoveryConfig
  pub discovery_timeout : ℤ

pub data ConfigError : Type 0 where
  bad_arguments : ArgsError → ConfigError
  bad_flags : ConfigError
  bad_ports : PortsError → ConfigError
  bad_url bad_scheme bad_host : Bytes → ConfigError
  bad_discovery : Bytes → ConfigError
  bad_timeout bad_http_timeout bad_discovery_timeout bad_concurrency bad_mac_format : ConfigError
  no_target : LocalResult → ConfigError
  invalid_target : Bytes → ConfigError

pub data ConfigResult {ℓ} (A : Type ℓ) : Type ℓ where
  ok : A → ConfigResult A
  err : ConfigError → ConfigResult A

infixl 5 ◌>>=◌
abbrev pub ◌>>=◌ {ℓ κ} :
    {A : Type ℓ} {B : Type κ} → ConfigResult A → (A → ConfigResult B) → ConfigResult B
ok a >>= f = f a
err e >>= f = err e

-- What net/url reads of an URL
pub record Url : Type 0 where
  pub scheme : Bytes
  pub host : Bytes

unfoldable pub check_url : Bytes → Option Url → ConfigResult Bytes
unfolding one_of
check_url raw none = err (bad_url raw)
check_url raw (some u) =
    if not (one_of (codes "http" ∷ codes "https" ∷ []) u.scheme)
    then err (bad_scheme raw)
    else if length u.host == 0
    then err (bad_host raw)
    else ok raw

unfoldable pub parse_webhook_url : (Bytes → Option Url) → Bytes → ConfigResult Bytes
unfolding check_url
parse_webhook_url parse_url raw = check_url raw (parse_url raw)

-- `if raw := strings.TrimSpace(flag); raw != ""`
unfoldable pub read_webhook : (Bytes → Option Url) → Bytes → ConfigResult Bytes
unfolding parse_webhook_url
read_webhook parse_url raw = if length raw == 0 then ok [] else parse_webhook_url parse_url raw

unfoldable pub read_ports : PortsResult → ConfigResult (List ℕ)
read_ports (Ports.ok ports) = ok ports
read_ports (Ports.err e) = err (bad_ports e)

unfoldable pub read_discovery : DiscoveryResult → ConfigResult DiscoveryConfig
read_discovery (chosen cfg) = ok cfg
read_discovery (unknown_protocol part) = err (bad_discovery part)

-- `x > 0`
unfoldable pub is_positive : ℤ → Bool
is_positive (pos n) = ltb 0 n
is_positive (negsuc n) = false

unfoldable pub is_concurrency : ℤ → Bool
is_concurrency (pos n) = leb 1 n && leb n 2048
is_concurrency (negsuc n) = false

abbrev pub mac_formats : List Bytes
mac_formats = codes "colon" ∷ codes "none" ∷ codes "dash" ∷ []

-- The names whose flags say where the output goes
abbrev pub output_flags : List Bytes
output_flags =
    codes "json"
    ∷ codes "csv"
    ∷ codes "log"
    ∷ codes "webhook"
    ∷ codes "progress-webhook"
    ∷ codes "stream-json"
    ∷ []

unfoldable pub has_output_path : List Bytes → List Bytes → Bool
unfolding one_of
has_output_path [] names = false
has_output_path (flag ∷ flags) names = one_of names flag || has_output_path flags names

-- The checks behind the flags, in their order
unfoldable pub check_config : ScanConfig → ConfigResult ScanConfig
unfolding is_positive is_concurrency one_of
check_config cfg =
    if not (is_positive cfg.timeout)
    then err bad_timeout
    else if not (is_positive cfg.http_timeout)
    then err bad_http_timeout
    else if not (is_positive cfg.discovery_timeout)
    then err bad_discovery_timeout
    else if not (is_concurrency cfg.concurrency)
    then err bad_concurrency
    else if not (one_of mac_formats cfg.mac_format)
    then err bad_mac_format
    else ok cfg

unfoldable pub read_targets : List Bytes → LocalResult → ConfigResult (List Bytes)
read_targets (t ∷ positional) found = ok (t ∷ positional)
read_targets [] (local targets) = ok targets
read_targets [] no_interfaces = err (no_target no_interfaces)
read_targets [] no_adapter = err (no_target no_adapter)

-- `is_cidr` is whether net.ParseCIDR reads a text.
unfoldable pub check_targets : (Bytes → Bool) → List Bytes → ScanConfig → ConfigResult ScanConfig
check_targets is_cidr [] cfg = ok cfg
check_targets is_cidr (t ∷ targets) cfg =
    let rest = check_targets is_cidr targets cfg in
    if not (is_cidr t) then err (invalid_target t) else rest

module _ (lower : Bytes → Bytes) (default_ports : List ℕ) (parse_url : Bytes → Option Url)
    (is_cidr : Bytes → Bool) (found : LocalResult) where
  -- The configuration before its checks, without the targets
  unfoldable pub config : FlagValues → List ℕ → Bytes → Bytes → DiscoveryConfig → ScanConfig
  unfolding has_output_path
  config v ports webhook progress discovery =
      let output = has_output_path output_flags v.names_set in
      let tui = not v.no_tui && not output in
      record {
        target = [];
        targets = [];
        ports = ports;
        timeout = v.timeout;
        concurrency = v.concurrency;
        snmp_community = v.snmp_community;
        tui = tui;
        progress = not tui && not output;
        json_path = trim_space v.json;
        csv_path = trim_space v.csv;
        log_path = trim_space v.log;
        webhook_url = webhook;
        progress_url = progress;
        stream_json = v.stream_json;
        mac_format = lower (trim_space v.mac_format);
        arp_cache = v.aip || v.arp_dead;
        aip = v.aip;
        tui_arp_detail = v.arp_detail;
        http_timeout = v.http_timeout;
        discovery = discovery;
        discovery_timeout = v.discovery_timeout;
      }

  abbrev pub with_targets : ScanConfig → List Bytes → ScanConfig
  with_targets cfg targets = record cfg { targets = targets; target = join (codes ",") targets }

  unfoldable pub configure : FlagValues → List Bytes → ConfigResult ScanConfig
  unfolding read_ports read_webhook read_discovery config check_config read_targets check_targets
  configure v positional = do
    ports ← read_ports (parse_ports lower default_ports v.ports)
    webhook ← read_webhook parse_url (trim_space v.webhook)
    progress ← read_webhook parse_url (trim_space v.progress_webhook)
    discovery ← read_discovery (parse_discovery_input lower v.discovery)
    cfg ← check_config (config v ports webhook progress discovery)
    targets ← read_targets positional found
    check_targets is_cidr targets (with_targets cfg targets)

  unfoldable pub read_flags : Option FlagValues → List Bytes → ConfigResult ScanConfig
  unfolding configure
  read_flags none positional = err bad_flags
  read_flags (some v) positional = configure v positional

  unfoldable pub parse_normal :
      (List Bytes → Option FlagValues) → ArgsResult → ConfigResult ScanConfig
  unfolding read_flags
  parse_normal parse_flags (bad_args e) = err (bad_arguments e)
  parse_normal parse_flags (normal flags positional) = read_flags (parse_flags flags) positional

  unfoldable pub parse_scan_args :
      (List Bytes → Option FlagValues) → List Bytes → ConfigResult ScanConfig
  unfolding parse_normal
  parse_scan_args parse_flags args = parse_normal parse_flags (normalize_scan_args args)

-- The addresses of a target that were not listed before, in `run`
unfoldable pub add_ips : List Bytes → List Bytes → List Bytes
unfolding one_of
add_ips [] ips = ips
add_ips (ip ∷ part) ips = add_ips part (if one_of ips ip then ips else ips ++ ip ∷ [])

-- `expand` is `expandCIDR`; `none` is its error.
unfoldable pub expand_targets :
    (Bytes → Option (List Bytes)) → List Bytes → List Bytes → Option (List Bytes)
unfolding add_ips
expand_targets expand [] ips = some ips
expand_targets expand (t ∷ targets) ips = elim (expand t) [
  | none ↦ none
  | some part ↦ expand_targets expand targets (add_ips part ips)
]
