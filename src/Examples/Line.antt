-- ===== src/Examples/Line.antt =====
-- The theorems on the command line at concrete inputs, and runs of its definitions.
use ipscry.Common.{◌≡◌, refl, Bool, true, false, Option, some, List, [], ◌∷◌, ◌++◌, Bytes}
use ipscry.Common.Text.{codes, text_eq, has_prefix, trim_prefix, contains, split, join, to_lower}
use ipscry.Common.Trim.{trim_space, trim_left}
use ipscry.Args.{
  ArgsError, normal, bad_args, normalize_flag_token, normalize_scan_args, no_discovery, one_of,
  chosen, unknown_protocol, parse_discovery_input,
}
use ipscry.Args.Protocols.{IsChoice, first_unknown, parse_discovery_input-IsChoice}
use ipscry.Common.Int.{pos}
use ipscry.Ports.{parse_ports}
use ipscry.Interfaces.{no_adapter}
use ipscry.Config.{
  FlagValues, ScanConfig, ConfigResult, ok, err, Url, parse_scan_args, invalid_target,
}

abbrev args : List Bytes
args = codes "-p" ∷ codes "22" ∷ codes "10.0.0.0/24" ∷ codes "-N" ∷ codes "--csv=x.csv" ∷ []

normalize_scan_args_runs :
    (normalize_scan_args args
      ≡ normal
          (codes "--ports" ∷ codes "22" ∷ codes "--no-tui" ∷ codes "--csv=x.csv" ∷ [])
          (codes "10.0.0.0/24" ∷ []))
    × (normalize_scan_args (codes "-j" ∷ []) ≡ bad_args (ArgsError.missing_value (codes "-j")))
    × (normalize_scan_args (codes "-x" ∷ []) ≡ bad_args (ArgsError.unknown_flag (codes "-x")))
unfolding normalize_scan_args normalize_flag_token trim_left text_eq contains trim_prefix
normalize_scan_args_runs = (refl, refl, refl)

parse_discovery_input_runs :
    (parse_discovery_input to_lower (codes "SSDP, wsd")
      ≡ chosen (record no_discovery { enabled = true; ssdp = true; wsd = true }))
    × (parse_discovery_input to_lower (codes "ssdp,ping") ≡ unknown_protocol (codes "ping"))
unfolding parse_discovery_input to_lower trim_space text_eq split
parse_discovery_input_runs = (refl, refl)

parse_discovery_input-IsChoice_example :
    IsChoice
      (split b',' (trim_space (to_lower (codes "SSDP, wsd"))))
      no_discovery
      (first_unknown (split b',' (trim_space (to_lower (codes "SSDP, wsd")))))
      (parse_discovery_input to_lower (codes "SSDP, wsd"))
unfolding to_lower trim_space one_of text_eq
parse_discovery_input-IsChoice_example =
    parse_discovery_input-IsChoice to_lower (codes "SSDP, wsd") refl

-- What the flag package reads of `--ports=web`
abbrev values : FlagValues
values = record {
  ports = codes "web";
  timeout = pos 250;
  concurrency = pos 1024;
  no_tui = false;
  snmp_community = codes "public";
  json = [];
  csv = [];
  log = [];
  webhook = codes " http://h/x ";
  progress_webhook = [];
  stream_json = false;
  mac_format = codes "Colon";
  arp_dead = false;
  arp_detail = false;
  aip = true;
  http_timeout = pos 5000;
  discovery = codes "mdns";
  discovery_timeout = pos 2000;
  names_set = codes "ports" ∷ [];
}

abbrev parse_flags : List Bytes → Option FlagValues
parse_flags flags = some values

abbrev parse_url : Bytes → Option Url
parse_url raw = some (record { scheme = codes "http"; host = codes "h" })

-- A text with a slash is a network.
abbrev is_cidr : Bytes → Bool
is_cidr t = contains (codes "/") t

abbrev command : List Bytes
command = codes "--ports=web" ∷ codes "10.0.0.0/24" ∷ []

-- The command is accepted, and one with a target that is no network is not.
abbrev outcome : ConfigResult ScanConfig → Bytes
outcome (ok cfg) = cfg.webhook_url ++ cfg.target
outcome (err (invalid_target t)) = t
outcome (err e) = []

parse_scan_args_runs :
    (outcome (parse_scan_args to_lower [] parse_url is_cidr no_adapter parse_flags command)
      ≡ codes "http://h/x10.0.0.0/24")
    × (outcome
          (parse_scan_args to_lower [] parse_url is_cidr no_adapter parse_flags (codes "lan" ∷ []))
        ≡ codes "lan")
unfolding parse_scan_args normalize_scan_args normalize_flag_token trim_left contains has_prefix
    trim_prefix text_eq trim_space to_lower parse_ports parse_discovery_input join split
parse_scan_args_runs = (refl, refl)
