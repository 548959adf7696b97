-- ===== src/Args.antt =====
-- The command line in main.go: stripHelpArgs, normalizeFlagToken and normalizeScanArgs, and
-- parseDiscoveryInput of discovery.go. `strings.ToLower` on any text is an argument.
pub mod Count
pub mod Protocols
use ipscry.Common.{
  ◌+◌, ◌-◌, Bool, true, false, not, ◌&&◌, ◌||◌, Option, none, some, List, [], ◌∷◌, ◌++◌, ◌==◌,
  if◌then◌else◌, length, take, drop, Bytes,
}
use ipscry.Common.Text.{codes, text_eq, has_prefix, trim_prefix, contains, index, split}
use ipscry.Common.Maps.{find}
use ipscry.Common.Trim.{trim_space, trim_left}

unfoldable pub strip_help_args : List Bytes → List Bytes × Bool
strip_help_args [] = ([], false)
strip_help_args (arg ∷ args) =
    let (out, help) = strip_help_args args in
    if text_eq arg (codes "-h") || text_eq arg (codes "--help")
    then (out, true)
    else (arg ∷ out, help)

-- The text is one of the list.
unfoldable pub one_of : List Bytes → Bytes → Bool
one_of [] s = false
one_of (x ∷ xs) s = text_eq x s || one_of xs s

unfoldable pub scan_flag_aliases : List (Bytes × Bytes)
scan_flag_aliases =
    (codes "p", codes "ports")
    ∷ (codes "t", codes "timeout")
    ∷ (codes "c", codes "concurrency")
    ∷ (codes "N", codes "no-tui")
    ∷ (codes "j", codes "json")
    ∷ (codes "C", codes "csv")
    ∷ (codes "L", codes "log")
    ∷ (codes "w", codes "webhook")
    ∷ (codes "P", codes "progress-webhook")
    ∷ (codes "m", codes "mac-format")
    ∷ (codes "a", codes "arp-dead")
    ∷ (codes "R", codes "arp-detail")
    ∷ (codes "s", codes "snmp-community")
    ∷ (codes "H", codes "http-timeout")
    ∷ (codes "d", codes "discovery")
    ∷ (codes "D", codes "discovery-timeout")
    ∷ []

unfoldable pub scan_value_flags : List Bytes
scan_value_flags =
    codes "ports"
    ∷ codes "timeout"
    ∷ codes "concurrency"
    ∷ codes "snmp-community"
    ∷ codes "json"
    ∷ codes "csv"
    ∷ codes "log"
    ∷ codes "webhook"
    ∷ codes "progress-webhook"
    ∷ codes "mac-format"
    ∷ codes "http-timeout"
    ∷ codes "discovery"
    ∷ codes "discovery-timeout"
    ∷ []

-- The names that normalizeFlagToken lists beside them
unfoldable pub switches : List Bytes
switches =
    codes "no-tui" ∷ codes "stream-json" ∷ codes "arp-dead" ∷ codes "arp-detail" ∷ codes "aip" ∷ []

pub data ArgsError : Type 0 where
  not_a_flag unknown_flag missing_value : Bytes → ArgsError

pub data Token : Type 0 where
  token : Bytes → Token
  refused : ArgsError → Token

-- A name with what stands from the first `=` on
unfoldable pub split_value : Bytes → Bytes × Bytes
unfolding index
split_value body = elim (index (codes "=") body) [
  | none ↦ (body, [])
  | some idx ↦ (take idx body, drop idx body)
]

unfoldable pub flag_name : Bytes → Bytes → Bytes → Token
unfolding find one_of scan_flag_aliases scan_value_flags switches
flag_name arg body suffix = elim (find body scan_flag_aliases) [
  | some long ↦ token (codes "--" ++ (long ++ suffix))
  | none ↦
      if one_of scan_value_flags body || one_of switches body
      then token (codes "--" ++ (body ++ suffix))
      else refused (unknown_flag arg)
]

unfoldable pub normalize_flag_token : Bytes → Token
unfolding has_prefix split_value flag_name
normalize_flag_token arg =
    let (body, suffix) = split_value (trim_left (λ c. c == b'-') arg) in
    if not (has_prefix (codes "-") arg) then refused (not_a_flag arg) else flag_name arg body suffix

-- `scanValueFlags[longName] && !strings.Contains(normalized, "=")`
unfoldable pub takes_value : Bytes → Bool
unfolding split_value one_of scan_value_flags
takes_value normalized =
    let (name, suffix) = split_value normalized in
    one_of scan_value_flags (trim_prefix (codes "--") name) && not (contains (codes "=") normalized)

pub data ArgsResult : Type 0 where
  normal : List Bytes → List Bytes → ArgsResult
  bad_args : ArgsError → ArgsResult

-- The arguments in front of what the rest gives
unfoldable pub with_flags : List Bytes → ArgsResult → ArgsResult
with_flags flags (bad_args e) = bad_args e
with_flags flags (normal more positional) = normal (flags ++ more) positional

unfoldable pub with_positional : Bytes → ArgsResult → ArgsResult
with_positional arg (bad_args e) = bad_args e
with_positional arg (normal flags more) = normal flags (arg ∷ more)

-- A flag at the end, and a flag before a value, with what the loop gives from the value on and behind it
unfoldable pub last_flag : Bytes → Token → ArgsResult
unfolding takes_value
last_flag arg (refused e) = bad_args e
last_flag arg (token flag) =
    if takes_value flag then bad_args (missing_value arg) else normal (flag ∷ []) []

unfoldable pub next_flag : Token → Bytes → ArgsResult → ArgsResult → ArgsResult
unfolding takes_value with_flags
next_flag (refused e) value rest behind = bad_args e
next_flag (token flag) value rest behind =
    if takes_value flag then with_flags (flag ∷ value ∷ []) behind else with_flags (flag ∷ []) rest

-- The loop over the arguments; a value is skipped with its flag.
unfoldable pub normalize_scan_args : List Bytes → ArgsResult
unfolding has_prefix last_flag next_flag with_positional
normalize_scan_args [] = normal [] []
normalize_scan_args (arg ∷ []) =
    if not (has_prefix (codes "-") arg)
    then normal [] (arg ∷ [])
    else last_flag arg (normalize_flag_token arg)
normalize_scan_args (arg ∷ value ∷ args) =
    let rest = normalize_scan_args (value ∷ args) in
    let behind = normalize_scan_args args in
    if not (has_prefix (codes "-") arg)
    then with_positional arg rest
    else next_flag (normalize_flag_token arg) value rest behind

-- discoveryConfig, without the time-out
pub record DiscoveryConfig : Type 0 where
  pub enabled : Bool
  pub ssdp : Bool
  pub mdns : Bool
  pub llmnr : Bool
  pub wsd : Bool

abbrev pub no_discovery : DiscoveryConfig
no_discovery = record { enabled = false; ssdp = false; mdns = false; llmnr = false; wsd = false }

-- The switch over a part; `none` for a part that is no protocol
unfoldable pub add_protocol : Bytes → DiscoveryConfig → Option DiscoveryConfig
unfolding one_of
add_protocol part cfg =
    if one_of (codes "all" ∷ codes "on" ∷ codes "true" ∷ []) part
    then some (record { enabled = true; ssdp = true; mdns = true; llmnr = true; wsd = true })
    else if one_of (codes "ssdp" ∷ codes "upnp" ∷ []) part
    then some (record cfg { enabled = true; ssdp = true })
    else if one_of (codes "mdns" ∷ []) part
    then some (record cfg { enabled = true; mdns = true })
    else if one_of (codes "llmnr" ∷ []) part
    then some (record cfg { enabled = true; llmnr = true })
    else if one_of (codes "wsd" ∷ codes "ws-discovery" ∷ codes "wsdiscovery" ∷ []) part
    then some (record cfg { enabled = true; wsd = true })
    else none

pub data DiscoveryResult : Type 0 where
  chosen : DiscoveryConfig → DiscoveryResult
  unknown_protocol : Bytes → DiscoveryResult

unfoldable pub add_protocols : List Bytes → DiscoveryConfig → DiscoveryResult
unfolding add_protocol
add_protocols [] cfg = chosen cfg
add_protocols (part ∷ parts) cfg = elim (add_protocol (trim_space part) cfg) [
  | none ↦ unknown_protocol (trim_space part)
  | some more ↦ add_protocols parts more
]

unfoldable pub parse_discovery_input : (Bytes → Bytes) → Bytes → DiscoveryResult
unfolding one_of add_protocols
parse_discovery_input lower raw =
    let input = trim_space (lower raw) in
    if length input == 0 || one_of (codes "none" ∷ codes "off" ∷ codes "false" ∷ []) input
    then chosen no_discovery
    else add_protocols (split b',' input) no_discovery
