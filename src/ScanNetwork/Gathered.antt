-- ===== src/ScanNetwork/Gathered.antt =====
-- The maps of addresses that scanNetwork gathers.
use ipscry.Common.{
  ◌≡◌, refl, ap, ◌∙◌, inl, inr, Bool, true, false, not, ◌&&◌, ◌||◌, none, some, List, [], ◌∷◌, ◌++◌,
  arith, if◌then◌else◌, Bool-cases, Option-cases, Bytes,
}
use ipscry.Common.Text.{text_eq, text_eq_iff}
use ipscry.Common.Maps.{find, put, has, is_some, has-find, has-put, IsMap, put-IsMap}
use ipscry.Common.Order.{any}
use ipscry.Hosts.{PortResult, ArpCacheEntry, DiscoveryHit}
use ipscry.Macs.{valid_arp_mac}
use ipscry.Discovery.{merge_discovery_hosts}
use ipscry.Scan.{PortScanResult, add_result, collect}
use ipscry.ArpCache.{Target, add_neighbours, arp_cache_for_target}
use ipscry.ScanNetwork.{put_each, all_hits, Segment, merge_segments, all_neighbours}

-- A port of the address was found open.
abbrev pub is_found : List PortScanResult → Bytes → Bool
is_found arrived k = any (λ r. text_eq r.ip k) arrived

-- The address lies in a network.
abbrev pub in_segments : List Segment → Bytes → Bool
in_segments segments k = any (λ s. s.0 k) segments

-- A target's discovery has the address.
abbrev pub is_discovered : List Target → Bytes → Bool
is_discovered targets k = any (λ t. has k t.discovered) targets

-- The ARP table has the address with a MAC that can be a host's, and the network has it too.
abbrev pub is_neighbour_in : (Bytes → Bool) → List ArpCacheEntry → Bytes → Bool
is_neighbour_in in_target entries k =
    any (λ e. text_eq e.ip k && (in_target k && valid_arp_mac e.mac)) entries

abbrev pub is_neighbour : List Segment → Bytes → Bool
is_neighbour segments k = any (λ s. is_neighbour_in s.0 s.1 k) segments

pub has-collect :
    (k : Bytes) (rs : List PortScanResult) (m : List (Bytes × List PortResult))
    → has k (collect rs m) ≡ (is_found rs k || has k m)
unfolding collect add_result
has-collect k [] m = refl
has-collect k (r ∷ rs) m =
    has-collect k rs (add_result r m)
    ∙ ground (
      arith,
      has-put r.ip k
          (elim (find r.ip m) [ none ↦ [] | some found_open ↦ found_open ] ++ r.port ∷ []) m,
    )

-- An address that is listed unless it is there
pub put_new :
    {V : Type 0} (k ip : Bytes) (v : V) (m : List (Bytes × V))
    → has k (elim (find ip m) [ none ↦ put ip v m | some w ↦ m ]) ≡ (text_eq ip k || has k m)
put_new k ip v m = elim (Option-cases (find ip m)) [
  | inl e ↦ rw (e) (has-put ip k v m)
  | inr (w, e) ↦
      let there : has ip m ≡ true = has-find ip m ∙ ap is_some e in
      rw (e) (ground (arith, there, text_eq_iff ip k))
]

pub put_new-IsMap :
    {V : Type 0} (ip : Bytes) (v : V) (m : List (Bytes × V))
    → IsMap m
    → IsMap (elim (find ip m) [ none ↦ put ip v m | some w ↦ m ])
put_new-IsMap ip v m h = elim (Option-cases (find ip m)) [
  | inl e ↦ rw (e) (put-IsMap ip v m h)
  | inr (w, e) ↦ rw (e) h
]

pub collect-IsMap :
    (rs : List PortScanResult) (m : List (Bytes × List PortResult)) → IsMap m → IsMap (collect rs m)
unfolding collect add_result
collect-IsMap [] m h = h
collect-IsMap (r ∷ rs) m h = collect-IsMap rs (add_result r m) (put-IsMap r.ip _ m h)

-- One hit
pub merge_one :
    (in_target : Bytes → Bool) (k ip : Bytes) (m : List (Bytes × List PortResult))
    → has k
        (if not (in_target ip) then m else elim (find ip m) [ none ↦ put ip [] m | some ports ↦ m ])
      ≡ ((in_target k && text_eq ip k) || has k m)
merge_one in_target k ip m = elim (Bool-cases (text_eq ip k)) [
  | inl e ↦
      let same : in_target ip ≡ in_target k = ap in_target ((text_eq_iff ip k).0 e) in
      ground (arith, e, same, put_new k ip [] m)
  | inr e ↦ ground (arith, e, put_new k ip [] m)
]

pub has-merge :
    (in_target : Bytes → Bool) (k : Bytes) (hits : List (Bytes × DiscoveryHit))
    (m : List (Bytes × List PortResult))
    → has k (merge_discovery_hosts in_target hits m) ≡ ((in_target k && has k hits) || has k m)
unfolding merge_discovery_hosts has
has-merge in_target k [] m = ground arith
has-merge in_target k ((ip, hit) ∷ hits) m =
    has-merge in_target k hits _ ∙ ground (arith, merge_one in_target k ip m)

pub merge_one-IsMap :
    (b : Bool) (ip : Bytes) (m : List (Bytes × List PortResult))
    → IsMap m
    → IsMap (if b then m else elim (find ip m) [ none ↦ put ip [] m | some ports ↦ m ])
merge_one-IsMap true ip m h = h
merge_one-IsMap false ip m h = put_new-IsMap ip [] m h

pub merge-IsMap :
    (in_target : Bytes → Bool) (hits : List (Bytes × DiscoveryHit))
    (m : List (Bytes × List PortResult))
    → IsMap m
    → IsMap (merge_discovery_hosts in_target hits m)
unfolding merge_discovery_hosts
merge-IsMap in_target [] m h = h
merge-IsMap in_target ((ip, hit) ∷ hits) m h =
    merge-IsMap in_target hits _ (merge_one-IsMap (not (in_target ip)) ip m h)

pub has-merge_segments :
    (k : Bytes) (segments : List Segment) (hits : List (Bytes × DiscoveryHit))
    (m : List (Bytes × List PortResult))
    → has k (merge_segments segments hits m) ≡ ((in_segments segments k && has k hits) || has k m)
unfolding merge_segments
has-merge_segments k [] hits m = refl
has-merge_segments k ((in_target, entries) ∷ segments) hits m =
    has-merge_segments k segments hits _ ∙ ground (arith, has-merge in_target k hits m)

pub merge_segments-IsMap :
    (segments : List Segment) (hits : List (Bytes × DiscoveryHit))
    (m : List (Bytes × List PortResult))
    → IsMap m
    → IsMap (merge_segments segments hits m)
unfolding merge_segments
merge_segments-IsMap [] hits m h = h
merge_segments-IsMap ((in_target, entries) ∷ segments) hits m h =
    merge_segments-IsMap segments hits _ (merge-IsMap in_target hits m h)

pub has-put_each :
    {V : Type 0} (k : Bytes) (m out : List (Bytes × V))
    → has k (put_each m out) ≡ (has k m || has k out)
unfolding put_each has
has-put_each k [] out = refl
has-put_each k ((j, v) ∷ m) out = has-put_each k m (put j v out) ∙ ground (arith, has-put j k v out)

pub has-all_hits :
    (k : Bytes) (targets : List Target) (hits : List (Bytes × DiscoveryHit))
    → has k (all_hits targets hits) ≡ (is_discovered targets k || has k hits)
unfolding all_hits
has-all_hits k [] hits = refl
has-all_hits k (t ∷ targets) hits =
    has-all_hits k targets _ ∙ ground (arith, has-put_each k t.discovered hits)

-- One entry of the ARP table
pub add_one :
    (in_target : Bytes → Bool) (k : Bytes) (e : ArpCacheEntry) (out : List (Bytes × ArpCacheEntry))
    → has k (if not (in_target e.ip) || not (valid_arp_mac e.mac) then out else put e.ip e out)
      ≡ ((text_eq e.ip k && (in_target k && valid_arp_mac e.mac)) || has k out)
add_one in_target k e out = elim (Bool-cases (text_eq e.ip k)) [
  | inl eq ↦
      let same : in_target e.ip ≡ in_target k = ap in_target ((text_eq_iff e.ip k).0 eq) in
      ground (arith, eq, same, has-put e.ip k e out)
  | inr ne ↦ ground (arith, ne, has-put e.ip k e out)
]

pub has-add_neighbours :
    (in_target : Bytes → Bool) (k : Bytes) (entries : List ArpCacheEntry)
    (out : List (Bytes × ArpCacheEntry))
    → has k (add_neighbours in_target entries out)
      ≡ (is_neighbour_in in_target entries k || has k out)
unfolding add_neighbours
has-add_neighbours in_target k [] out = refl
has-add_neighbours in_target k (e ∷ entries) out =
    has-add_neighbours in_target k entries _ ∙ ground (arith, add_one in_target k e out)

pub has-none : (V : Type 0) (k : Bytes) → has {V = V} k [] ≡ false
unfolding has
has-none V k = refl

pub has-all_neighbours :
    (k : Bytes) (segments : List Segment) (m : List (Bytes × ArpCacheEntry))
    → has k (all_neighbours segments m) ≡ (is_neighbour segments k || has k m)
unfolding all_neighbours arp_cache_for_target
has-all_neighbours k [] m = refl
has-all_neighbours k ((in_target, entries) ∷ segments) m =
    has-all_neighbours k segments _
    ∙ ground (
      arith,
      has-put_each k (add_neighbours in_target entries []) m,
      has-add_neighbours in_target k entries [],
      has-none ArpCacheEntry k,
    )
