-- ===== src/Config/Parts.antt =====
-- The checks of parseScanArgs one by one: what each accepts, and why it refuses.
use ipscry.Common.{
  ℕ, ◌≡◌, refl, sym, ◌≢◌, ◌⊎◌, inl, inr, Bool, true, false, not, Option, none, some, List, [], ◌∷◌,
  arith, ◌==◌, if◌then◌else◌, Bool-cases, length, All, Bytes,
}
use ipscry.Common.Text.{codes}
use ipscry.Common.Trim.{trim_space}
use ipscry.Ports
use ipscry.Ports.{PortsResult, parse_ports}
use ipscry.Args.{
  one_of, DiscoveryConfig, DiscoveryResult, chosen, unknown_protocol, parse_discovery_input,
}
use ipscry.Common.Text.{text_eq_iff}
use ipscry.Config.Flags.{
  IsPositive, is_positive_iff, IsConcurrency, is_concurrency_iff, IsWord, one_of_iff, test_fails,
}
use ipscry.Interfaces.{LocalResult, local, no_interfaces, no_adapter}
use ipscry.Config.{
  FlagValues, ScanConfig, ConfigError, bad_arguments, bad_flags, bad_ports, bad_url, bad_scheme,
  bad_host, bad_discovery, bad_timeout, bad_http_timeout, bad_discovery_timeout, bad_concurrency,
  bad_mac_format, no_target, invalid_target, ConfigResult, ok, err, ◌>>=◌, Url, check_url,
  parse_webhook_url, read_webhook, read_ports, read_discovery, is_positive, is_concurrency,
  mac_formats, check_config, read_targets, check_targets, config,
}

-- A success has the property, and an error has its reason.
abbrev pub Meets : {A : Type 0} → (A → Type 0) → (ConfigError → Type 0) → ConfigResult A → Type 0
Meets P Q (ok a) = P a
Meets P Q (err e) = Q e

pub Meets-bind :
    {A B : Type 0} (P : A → Type 0) (R : B → Type 0) (Q : ConfigError → Type 0) (m : ConfigResult A)
    (f : A → ConfigResult B)
    → Meets P Q m
    → ((a : A) → P a → Meets R Q (f a))
    → Meets R Q (m >>= f)
Meets-bind P R Q (ok a) f h k = k a h
Meets-bind P R Q (err e) f h k = h

pub Meets-weaken :
    {A : Type 0} (P R : A → Type 0) (Q : ConfigError → Type 0) (m : ConfigResult A)
    → Meets P Q m
    → ((a : A) → P a → R a)
    → Meets R Q m
Meets-weaken P R Q (ok a) h k = k a h
Meets-weaken P R Q (err e) h k = h

-- One check
pub Meets-check :
    {A : Type 0} (P : A → Type 0) (Q : ConfigError → Type 0) (b : Bool) (e : ConfigError)
    (m : ConfigResult A)
    → (b ≡ false → Q e)
    → (b ≡ true → Meets P Q m)
    → Meets P Q (if not b then err e else m)
Meets-check P Q true e m h k = k refl
Meets-check P Q false e m h k = h refl

-- The URL is one that a webhook can have: http or https, with a host.
abbrev pub IsWebhook : (Bytes → Option Url) → Bytes → Type 0
IsWebhook parse_url raw =
    (u : Url) × (parse_url raw ≡ some u)
    × ((u.scheme ≡ codes "http") ⊎ (u.scheme ≡ codes "https"))
    × (u.host ≢ [])

abbrev pub IsFormat : Bytes → Type 0
IsFormat f = IsWord (codes "colon" ∷ codes "none" ∷ codes "dash" ∷ []) f

-- What is asked of the fields that the flags set
pub record AreSound (cfg : ScanConfig) : Type 0 where
  pub timeout_positive : IsPositive cfg.timeout
  pub http_positive : IsPositive cfg.http_timeout
  pub discovery_positive : IsPositive cfg.discovery_timeout
  pub concurrency_capped : IsConcurrency cfg.concurrency
  pub format_known : IsFormat cfg.mac_format

module _ (lower : Bytes → Bytes) (default_ports : List ℕ) (parse_url : Bytes → Option Url)
    (is_cidr : Bytes → Bool) (found : LocalResult) (v : FlagValues) (positional : List Bytes) where
  -- One of the two webhook flags
  abbrev pub IsFlag : Bytes → Type 0
  IsFlag raw = (raw ≡ trim_space v.webhook) ⊎ (raw ≡ trim_space v.progress_webhook)

  -- The reason of each error
  abbrev pub IsReason : ConfigError → Type 0
  IsReason (bad_arguments e) = ⊥
  IsReason bad_flags = ⊥
  IsReason (bad_ports e) = parse_ports lower default_ports v.ports ≡ Ports.err e
  IsReason (bad_url raw) = IsFlag raw × (parse_url raw ≡ none)
  IsReason (bad_scheme raw) =
      IsFlag raw
      × (u : Url) × (parse_url raw ≡ some u)
      × (u.scheme ≢ codes "http")
      × (u.scheme ≢ codes "https")
  IsReason (bad_host raw) = IsFlag raw × (u : Url) × (parse_url raw ≡ some u) × (u.host ≡ [])
  IsReason (bad_discovery part) = parse_discovery_input lower v.discovery ≡ unknown_protocol part
  IsReason bad_timeout = ¬ IsPositive v.timeout
  IsReason bad_http_timeout = ¬ IsPositive v.http_timeout
  IsReason bad_discovery_timeout = ¬ IsPositive v.discovery_timeout
  IsReason bad_concurrency = ¬ IsConcurrency v.concurrency
  IsReason bad_mac_format = ¬ IsFormat (lower (trim_space v.mac_format))
  IsReason (no_target r) = (positional ≡ []) × (found ≡ r)
  IsReason (invalid_target t) = is_cidr t ≡ false

  -- An empty flag, or a webhook's URL
  abbrev pub IsUrl : Bytes → Bytes → Type 0
  IsUrl raw url = (url ≡ raw) × ((raw ≡ []) ⊎ IsWebhook parse_url raw)

  empty_text : (s : Bytes) → (length s == 0) ≡ true → s ≡ []
  empty_text [] e = refl
  empty_text (x ∷ s) e = absurd (ground arith)

  full_text : (s : Bytes) → (length s == 0) ≡ false → s ≢ []
  full_text [] e q = cc
  full_text (x ∷ s) e q = cc

  a_scheme :
      (s : Bytes)
      → one_of (codes "http" ∷ codes "https" ∷ []) s ≡ true
      → (s ≡ codes "http") ⊎ (s ≡ codes "https")
  unfolding one_of
  a_scheme s e = ground (arith, text_eq_iff (codes "http") s, text_eq_iff (codes "https") s, e)

  no_scheme :
      (s : Bytes)
      → one_of (codes "http" ∷ codes "https" ∷ []) s ≡ false
      → (s ≢ codes "http") × (s ≢ codes "https")
  unfolding one_of
  no_scheme s e = (
    λ p. let t = (text_eq_iff (codes "http") s).1 (sym p) in ground arith,
    λ p. let t = (text_eq_iff (codes "https") s).1 (sym p) in ground arith,
  )

  check_url-Meets :
      (raw : Bytes) (o : Option Url)
      → IsFlag raw
      → parse_url raw ≡ o
      → Meets (λ url. (url ≡ raw) × IsWebhook parse_url raw) IsReason (check_url raw o)
  unfolding check_url
  check_url-Meets raw none flag e = (flag, e)
  check_url-Meets raw (some u) flag e =
      elim (Bool-cases (one_of (codes "http" ∷ codes "https" ∷ []) u.scheme)) [
        | inr bad ↦
            rw (bad, check_url) (flag, u, e, (no_scheme u.scheme bad).0, (no_scheme u.scheme bad).1)
        | inl good ↦ elim (Bool-cases (length u.host == 0)) [
          | inl none_there ↦
              rw (good, check_url) (rw (none_there) (flag, u, e, empty_text u.host none_there))
          | inr there ↦
              rw (good, check_url)
                (rw (there) (refl, (u, e, a_scheme u.scheme good, full_text u.host there)))
        ]
      ]

  pub read_webhook-Meets :
      (raw : Bytes) → IsFlag raw → Meets (IsUrl raw) IsReason (read_webhook parse_url raw)
  unfolding read_webhook parse_webhook_url
  read_webhook-Meets raw flag = elim (Bool-cases (length raw == 0)) [
    | inl e ↦ rw (e) (sym (empty_text raw e), inl (empty_text raw e))
    | inr e ↦ rw (e) (
        Meets-weaken _ (IsUrl raw) IsReason (check_url raw (parse_url raw))
          (check_url-Meets raw (parse_url raw) flag refl) (λ url h. (h.0, inr h.1)))
  ]

  pub read_ports-Meets :
      (r : PortsResult)
      → parse_ports lower default_ports v.ports ≡ r
      → Meets
          (λ ports. parse_ports lower default_ports v.ports ≡ Ports.ok ports)
          IsReason
          (read_ports r)
  unfolding read_ports
  read_ports-Meets (Ports.ok ports) e = e
  read_ports-Meets (Ports.err x) e = e

  pub read_discovery-Meets :
      (r : DiscoveryResult)
      → parse_discovery_input lower v.discovery ≡ r
      → Meets
          (λ cfg. parse_discovery_input lower v.discovery ≡ chosen cfg)
          IsReason
          (read_discovery r)
  unfolding read_discovery
  read_discovery-Meets (chosen cfg) e = e
  read_discovery-Meets (unknown_protocol part) e = e

  pub check_config-Meets :
      (ports : List ℕ) (webhook progress : Bytes) (discovery : DiscoveryConfig)
      → Meets
          (λ cfg.
            (cfg
              ≡ config lower default_ports parse_url is_cidr found v ports webhook progress
                  discovery)
            × AreSound cfg)
          IsReason
          (check_config
            (config lower default_ports parse_url is_cidr found v ports webhook progress discovery))
  unfolding check_config config
  check_config-Meets ports webhook progress discovery =
      Meets-check _ IsReason (is_positive v.timeout) bad_timeout _
        (test_fails _ (is_positive_iff v.timeout))
        (λ t.
          Meets-check _ IsReason (is_positive v.http_timeout) bad_http_timeout _
            (test_fails _ (is_positive_iff v.http_timeout))
            (λ h.
              Meets-check _ IsReason (is_positive v.discovery_timeout) bad_discovery_timeout _
                (test_fails _ (is_positive_iff v.discovery_timeout))
                (λ d.
                  Meets-check _ IsReason (is_concurrency v.concurrency) bad_concurrency _
                    (test_fails _ (is_concurrency_iff v.concurrency))
                    (λ c.
                      Meets-check _ IsReason (one_of mac_formats (lower (trim_space v.mac_format)))
                        bad_mac_format _
                        (test_fails _ (one_of_iff mac_formats (lower (trim_space v.mac_format))))
                        (λ m. (
                          refl,
                          record {
                            timeout_positive = (is_positive_iff v.timeout).0 t;
                            http_positive = (is_positive_iff v.http_timeout).0 h;
                            discovery_positive = (is_positive_iff v.discovery_timeout).0 d;
                            concurrency_capped = (is_concurrency_iff v.concurrency).0 c;
                            format_known =
                                (one_of_iff mac_formats (lower (trim_space v.mac_format))).0 m;
                          },
                        ))))))

  -- The targets are those of the arguments, or those of the machine where there are none.
  abbrev pub AreTargets : List Bytes → Type 0
  AreTargets targets =
      ((positional ≢ []) × (targets ≡ positional)) ⊎ ((positional ≡ []) × (found ≡ local targets))

  pub read_targets-Meets :
      (ps : List Bytes) (r : LocalResult)
      → positional ≡ ps
      → found ≡ r
      → Meets AreTargets IsReason (read_targets ps r)
  unfolding read_targets
  read_targets-Meets (t ∷ ps) r e f = inl (rw (e) (λ q. cc (q)), sym e)
  read_targets-Meets [] (local targets) e f = inr (e, f)
  read_targets-Meets [] no_interfaces e f = (e, f)
  read_targets-Meets [] no_adapter e f = (e, f)

  pub check_targets-Meets :
      (targets : List Bytes) (cfg : ScanConfig)
      → Meets
          (λ out. (out ≡ cfg) × All (λ t. is_cidr t ≡ true) targets)
          IsReason
          (check_targets is_cidr targets cfg)
  unfolding check_targets
  check_targets-Meets [] cfg = (refl, tt)
  check_targets-Meets (t ∷ targets) cfg =
      Meets-check _ IsReason (is_cidr t) (invalid_target t) _ (λ e. e)
        (λ e.
          Meets-weaken _ (λ out. (out ≡ cfg) × All (λ t. is_cidr t ≡ true) (t ∷ targets)) IsReason _
            (check_targets-Meets targets cfg) (λ out h. (h.0, (e, h.1))))
