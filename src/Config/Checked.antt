-- ===== src/Config/Checked.antt =====
-- What parseScanArgs accepts, and why it refuses.
use ipscry.Common.{ℕ, ◌≡◌, Bool, true, false, Option, List, All, Bytes}
use ipscry.Common.Trim.{trim_space}
use ipscry.Ports
use ipscry.Ports.{parse_ports}
use ipscry.Args.{chosen, parse_discovery_input}
use ipscry.Interfaces.{LocalResult}
use ipscry.Config.{FlagValues, ScanConfig, Url}
use ipscry.Common.{◌↔◌, ◌⊎◌}
use ipscry.Common.Text.{codes, join}
use ipscry.Config.Flags.{NamesOutput}
use ipscry.Config.Parts.{AreSound, IsUrl, AreTargets}

module _ (lower : Bytes → Bytes) (default_ports : List ℕ) (parse_url : Bytes → Option Url)
    (is_cidr : Bytes → Bool) (found : LocalResult) (v : FlagValues) (positional : List Bytes) where
  -- What holds of a configuration that is accepted
  pub record IsAccepted (cfg : ScanConfig) : Type 0 where
    pub sound : AreSound cfg
    pub ports_read : parse_ports lower default_ports v.ports ≡ Ports.ok cfg.ports
    pub webhook_read :
        IsUrl lower default_ports parse_url is_cidr found v positional
          (trim_space v.webhook)
          cfg.webhook_url
    pub progress_read :
        IsUrl lower default_ports parse_url is_cidr found v positional
          (trim_space v.progress_webhook)
          cfg.progress_url
    pub discovery_read : parse_discovery_input lower v.discovery ≡ chosen cfg.discovery
    pub targets_given :
        AreTargets lower default_ports parse_url is_cidr found v positional cfg.targets
    pub targets_read : All (λ t. is_cidr t ≡ true) cfg.targets
    pub target_joined : cfg.target ≡ join (codes ",") cfg.targets
    pub timeout_given : cfg.timeout ≡ v.timeout
    pub http_timeout_given : cfg.http_timeout ≡ v.http_timeout
    pub discovery_timeout_given : cfg.discovery_timeout ≡ v.discovery_timeout
    pub concurrency_given : cfg.concurrency ≡ v.concurrency
    pub community_given : cfg.snmp_community ≡ v.snmp_community
    pub json_given : cfg.json_path ≡ trim_space v.json
    pub csv_given : cfg.csv_path ≡ trim_space v.csv
    pub log_given : cfg.log_path ≡ trim_space v.log
    pub stream_given : cfg.stream_json ≡ v.stream_json
    pub format_given : cfg.mac_format ≡ lower (trim_space v.mac_format)
    pub aip_given : cfg.aip ≡ v.aip
    pub detail_given : cfg.tui_arp_detail ≡ v.arp_detail
    pub arp_asked : (cfg.arp_cache ≡ true) ↔ ((v.aip ≡ true) ⊎ (v.arp_dead ≡ true))
    pub tui_shown : (cfg.tui ≡ true) ↔ ((v.no_tui ≡ false) × (¬ NamesOutput v.names_set))
    pub progress_shown : (cfg.progress ≡ true) ↔ ((v.no_tui ≡ true) × (¬ NamesOutput v.names_set))
