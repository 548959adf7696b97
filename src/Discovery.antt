-- ===== src/Discovery.antt =====
-- The merge of what the discovery protocols found, in discovery.go, and the fields of a host that it
-- sets. `strings.ToLower` on any UTF-8 text is the parameter `lower`.
use ipscry.Common.{
  ◌≡◌, refl, ap, ◌∙◌, inl, inr, Bool, true, false, not, ◌&&◌, ◌||◌, Option, none, some, List, [],
  ◌∷◌, ◌++◌, arith, if◌then◌else◌, Bool-cases, Bytes,
}
use ipscry.Common.Text.{codes, text_eq, text_eq_iff, text_lt, trim_suffix, join}
use ipscry.Common.Trim.{trim_space}
use ipscry.Common.Maps.{find, put}
use ipscry.Hosts.{PortResult, HostResult, ArpCacheEntry, DiscoveryHit, is_empty}

-- `sort.Strings`
unfoldable pub insert : Bytes → List Bytes → List Bytes
insert x [] = x ∷ []
insert x (y ∷ ys) = let rest = insert x ys in if text_lt y x then y ∷ rest else x ∷ y ∷ ys

unfoldable pub sort_strings : List Bytes → List Bytes
unfolding insert
sort_strings [] = []
sort_strings (x ∷ xs) = insert x (sort_strings xs)

module _ (lower : Bytes → Bytes) where
  -- `seen[key]`: the map holds the keys of `existing` at every moment.
  unfoldable pub has_key : Bytes → List Bytes → Bool
  has_key key [] = false
  has_key key (x ∷ xs) = text_eq (lower x) key || has_key key xs

  unfoldable pub append_new : List Bytes → List Bytes → List Bytes
  unfolding has_key
  append_new existing [] = existing
  append_new existing (v ∷ values) =
      let t = trim_space v in
      append_new (if is_empty t || has_key (lower t) existing then existing else existing ++ t ∷ [])
        values

  unfoldable pub append_unique_strings : List Bytes → List Bytes → List Bytes
  unfolding append_new sort_strings
  append_unique_strings existing values = sort_strings (append_new existing values)

  unfoldable pub append_source : List Bytes → List Bytes → List Bytes
  unfolding append_unique_strings
  append_source existing [] = existing
  append_source existing (s ∷ sources) =
      append_source (append_unique_strings existing (s ∷ [])) sources

  -- `if dst == "" { dst = src }`
  abbrev pub or_else_text : Bytes → Bytes → Bytes
  or_else_text dst src = if is_empty dst then src else dst

  unfoldable pub merge_discovery_hit : DiscoveryHit → DiscoveryHit → DiscoveryHit
  unfolding append_source append_unique_strings
  merge_discovery_hit dst src = record dst {
    sources = append_source dst.sources src.sources;
    mdns_name = or_else_text dst.mdns_name src.mdns_name;
    mdns_services = append_unique_strings dst.mdns_services src.mdns_services;
    llmnr_name = or_else_text dst.llmnr_name src.llmnr_name;
    ssdp_server = or_else_text dst.ssdp_server src.ssdp_server;
    upnp_type = or_else_text dst.upnp_type src.upnp_type;
    upnp_location = or_else_text dst.upnp_location src.upnp_location;
    upnp_friendly = or_else_text dst.upnp_friendly src.upnp_friendly;
    upnp_model = or_else_text dst.upnp_model src.upnp_model;
    wsd_types = append_unique_strings dst.wsd_types src.wsd_types;
    wsd_xaddrs = append_unique_strings dst.wsd_xaddrs src.wsd_xaddrs;
    wsd_scopes = append_unique_strings dst.wsd_scopes src.wsd_scopes;
  }

  -- The keys of the values that are not blank
  abbrev pub is_offered : Bytes → List Bytes → Bool
  is_offered key [] = false
  is_offered key (v ∷ values) =
      (not (is_empty (trim_space v)) && text_eq (lower (trim_space v)) key) || is_offered key values

  has_key-append :
      (k : Bytes) (a b : List Bytes) → has_key k (a ++ b) ≡ (has_key k a || has_key k b)
  unfolding has_key
  has_key-append k [] b = refl
  has_key-append k (x ∷ a) b = ground (arith, has_key-append k a b)

  has_key-insert :
      (k x : Bytes) (xs : List Bytes)
      → has_key k (insert x xs) ≡ (text_eq (lower x) k || has_key k xs)
  unfolding has_key insert
  has_key-insert k x [] = refl
  has_key-insert k x (y ∷ ys) = ground (arith, has_key-insert k x ys)

  has_key-sort : (k : Bytes) (xs : List Bytes) → has_key k (sort_strings xs) ≡ has_key k xs
  unfolding has_key sort_strings
  has_key-sort k [] = refl
  has_key-sort k (x ∷ xs) =
      has_key-insert k x (sort_strings xs) ∙ ap (λ b. text_eq (lower x) k || b) (has_key-sort k xs)

  -- One value, added or not.
  add_one :
      (k t : Bytes) (e : List Bytes) (more : Bool)
      → (has_key k (if is_empty t || has_key (lower t) e then e else e ++ t ∷ []) || more)
        ≡ (has_key k e || ((not (is_empty t) && text_eq (lower t) k) || more))
  unfolding has_key
  add_one k t e more = elim (Bool-cases (text_eq (lower t) k)) [
    | inl eq ↦
        let same : has_key (lower t) e ≡ has_key k e =
          ap (λ x. has_key x e) ((text_eq_iff (lower t) k).0 eq) in
        rw (same) (ground (arith, eq, has_key-append k e (t ∷ [])))
    | inr ne ↦ ground (arith, ne, has_key-append k e (t ∷ []))
  ]

  has_key-append_new :
      (k : Bytes) (values e : List Bytes)
      → has_key k (append_new e values) ≡ (has_key k e || is_offered k values)
  unfolding append_new
  has_key-append_new k [] e = ground arith
  has_key-append_new k (v ∷ values) e =
      has_key-append_new k values _ ∙ add_one k (trim_space v) e (is_offered k values)

  -- Up to letter case and order, the result has exactly the strings that were there and the values
  -- that are not blank, trimmed.
  pub has_key-append_unique_strings :
      (k : Bytes) (existing values : List Bytes)
      → has_key k (append_unique_strings existing values)
        ≡ (has_key k existing || is_offered k values)
  unfolding append_unique_strings
  has_key-append_unique_strings k existing values =
      has_key-sort k (append_new existing values) ∙ has_key-append_new k values existing

-- `mergeDiscoveryHosts`: the addresses in the target that have no ports yet get none. `in_target` is
-- `ipInTarget` for the network.
unfoldable pub merge_discovery_hosts :
    (Bytes → Bool)
    → List (Bytes × DiscoveryHit)
    → List (Bytes × List PortResult)
    → List (Bytes × List PortResult)
unfolding find put
merge_discovery_hosts in_target [] by_ip = by_ip
merge_discovery_hosts in_target ((ip, hit) ∷ hits) by_ip = merge_discovery_hosts in_target hits (
    if not (in_target ip)
    then by_ip
    else elim (find ip by_ip) [ none ↦ put ip [] by_ip | some ports ↦ by_ip ])

unfoldable pub discovery_host_status :
    Bool → Bool → List PortResult → DiscoveryHit → Option ArpCacheEntry → Bytes
discovery_host_status arp_cache discovery ports hit dead =
    if arp_cache && not (is_empty ports)
    then codes "live"
    else if arp_cache && elim dead [ none ↦ false | some entry ↦ true ]
    then codes "arp"
    else if discovery && (not (is_empty hit.ip) && is_empty ports)
    then codes "discovery"
    else []

unfoldable pub discovery_guess_text : DiscoveryHit → Bytes
discovery_guess_text hit = join (codes " ") (
    hit.mdns_name
    ∷ join (codes " ") hit.mdns_services
    ∷ hit.llmnr_name
    ∷ hit.ssdp_server
    ∷ hit.upnp_type
    ∷ hit.upnp_friendly
    ∷ hit.upnp_model
    ∷ join (codes " ") hit.wsd_types
    ∷ join (codes " ") hit.wsd_scopes
    ∷ [])

unfoldable pub discovery_hostname_fallback : Bytes → DiscoveryHit → Bytes
discovery_hostname_fallback hostname hit =
    if not (is_empty hostname)
    then hostname
    else if not (is_empty hit.mdns_name)
    then trim_suffix (codes ".local") hit.mdns_name
    else hit.llmnr_name

unfoldable pub apply_discovery_fields : HostResult → DiscoveryHit → HostResult
apply_discovery_fields host hit = if is_empty hit.ip then host else record host {
  discovery_sources = hit.sources;
  mdns_name = hit.mdns_name;
  mdns_services = hit.mdns_services;
  llmnr_name = hit.llmnr_name;
  ssdp_server = hit.ssdp_server;
  upnp_type = hit.upnp_type;
  upnp_location = hit.upnp_location;
  upnp_friendly = hit.upnp_friendly;
  upnp_model = hit.upnp_model;
  wsd_types = hit.wsd_types;
  wsd_xaddrs = hit.wsd_xaddrs;
  wsd_scopes = hit.wsd_scopes;
}
