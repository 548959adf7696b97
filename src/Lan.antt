-- ===== src/Lan.antt =====
-- LAN discovery: runLANDiscovery of discovery.go and fetchUPnPDescriptions of ssdp.go. The sockets and the
-- goroutines are outside: what each protocol finds, the bodies of the descriptions, and the order in which
-- the protocols finish, are arguments, as is `strings.ToLower` on any text.
pub mod Merged
pub mod Described
use ipscry.Common.{
  Bool, not, ◌&&◌, Option, none, some, List, [], ◌∷◌, ◌==◌, if◌then◌else◌, length, Go, done, ◌>>=◌,
  Bytes,
}
use ipscry.Common.Trim.{trim_space}
use ipscry.Common.Maps.{put}
use ipscry.Args.{DiscoveryConfig}
use ipscry.Hosts.{is_empty}
use ipscry.Upnp.{parse_upnp_description}
use ipscry.Discovery.{merge_discovery_hit, or_else_text}
use ipscry.Packets.{Hits, hit_of}

-- What the protocols find
pub record Answers : Type 0 where
  pub ssdp_found : Hits
  pub mdns_found : Hits
  pub llmnr_found : Hits
  pub wsd_found : Hits

abbrev pub if_on : Bool → Hits → List Hits → List Hits
if_on on found rest = if on then found ∷ rest else rest

-- What the protocols that are on find
unfoldable pub partials : DiscoveryConfig → Answers → List Hits
partials cfg a =
    if_on cfg.ssdp a.ssdp_found
      (if_on cfg.mdns a.mdns_found (if_on cfg.llmnr a.llmnr_found (if_on cfg.wsd a.wsd_found [])))

module _ (lower : Bytes → Bytes) where
  -- The closure `merge` of runLANDiscovery, for what one protocol found
  unfoldable pub merge_partial : (Bytes → Bool) → Hits → Hits → Hits
  unfolding merge_discovery_hit hit_of put
  merge_partial in_target [] hits = hits
  merge_partial in_target ((ip, hit) ∷ found) hits = merge_partial in_target found (
      if not (in_target ip)
      then hits
      else put ip (merge_discovery_hit lower (record (hit_of ip hits) { ip = ip }) hit) hits)

  -- The protocols, in the order in which they finish
  unfoldable pub merge_partials : (Bytes → Bool) → List Hits → Hits → Hits
  unfolding merge_partial
  merge_partials in_target [] hits = hits
  merge_partials in_target (found ∷ partials) hits =
      merge_partials in_target partials (merge_partial in_target found hits)

  -- fetchUPnPDescription: `get` is the body of the response, cut at 65,536 bytes, where it is a success.
  unfoldable pub upnp_description : Option Bytes → Go (Bytes × Bytes)
  unfolding parse_upnp_description
  upnp_description none = done ([], [])
  upnp_description (some body) = parse_upnp_description lower body

  unfoldable pub fetch_upnp_description : (Bytes → Option Bytes) → Bytes → Go (Bytes × Bytes)
  unfolding upnp_description trim_space
  fetch_upnp_description get location =
      let asked = upnp_description (get location) in
      if length (trim_space location) == 0 then done ([], []) else asked

  unfoldable pub describe : Bytes → Bytes × Bytes → Hits → Hits
  unfolding hit_of put
  describe ip (friendly, model) hits =
      let cur = hit_of ip hits in
      if length friendly == 0 && length model == 0
      then hits
      else put ip
          (record cur {
            upnp_friendly = or_else_text lower cur.upnp_friendly friendly;
            upnp_model = or_else_text lower cur.upnp_model model;
          })
          hits

  -- The hits of the map that is ranged over, one after another
  unfoldable pub fetch_each : (Bytes → Option Bytes) → Hits → Hits → Go Hits
  unfolding fetch_upnp_description describe
  fetch_each get [] hits = done hits
  fetch_each get ((ip, hit) ∷ found) hits =
      let asked = do
        described ← fetch_upnp_description get hit.upnp_location
        fetch_each get found (describe ip described hits)
      in let skipped = fetch_each get found hits in
        if is_empty hit.upnp_location then skipped else asked

  unfoldable pub fetch_upnp_descriptions : (Bytes → Option Bytes) → Hits → Go Hits
  unfolding fetch_each
  fetch_upnp_descriptions get hits = fetch_each get hits hits

  -- The test of the target's network, where discoveryEligible finds an interface; `order`
  -- is the order in which the protocols finish.
  unfoldable pub run_lan_discovery :
      (List Hits → List Hits)
      → (Bytes → Option Bytes)
      → Option (Bytes → Bool)
      → DiscoveryConfig
      → Answers
      → Go Hits
  unfolding merge_partials partials fetch_upnp_descriptions
  run_lan_discovery order get none cfg a = done []
  run_lan_discovery order get (some in_target) cfg a =
      let merged = merge_partials in_target (order (partials cfg a)) [] in
      let described = fetch_upnp_descriptions get merged in
      if not cfg.enabled then done [] else if cfg.ssdp then described else done merged
