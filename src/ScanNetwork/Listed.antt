-- ===== src/ScanNetwork/Listed.antt =====
-- Which addresses scanNetwork has a host for.
use ipscry.Common.{
  ◌≡◌, refl, sym, ap, ◌∙◌, inl, inr, Bool, true, false, not, ◌&&◌, ◌||◌, none, some, List, [], ◌∷◌,
  arith, Option-cases, Bytes,
}
use ipscry.Common.Text.{text_eq, text_eq_iff}
use ipscry.Common.Maps.{find, has, is_some, has-find, has-put, IsMap, put-IsMap}
use ipscry.Hosts.{PortResult, ArpCacheEntry, DiscoveryHit}
use ipscry.Tui.{EnrichConfig}
use ipscry.Scan.{PortScanResult, collect}
use ipscry.ArpCache.{Target}
use ipscry.ScanNetwork.{
  all_hits, Segment, all_neighbours, Dead, add_dead, list_dead, with_dead, survey_hits, survey,
}
use ipscry.ScanNetwork.Gathered.{
  is_found, in_segments, is_discovered, is_neighbour, has-collect, collect-IsMap,
  has-merge_segments, merge_segments-IsMap, has-all_hits, has-none, has-all_neighbours,
}

has-add_dead :
    (k ip : Bytes) (entry : ArpCacheEntry) (d : Dead)
    → has k (add_dead ip entry (find ip d.by_ip) d).by_ip ≡ (text_eq ip k || has k d.by_ip)
has-add_dead k ip entry d = elim (Option-cases (find ip d.by_ip)) [
  | inl e ↦ rw (e) (has-put ip k [] d.by_ip)
  | inr (w, e) ↦
      let there : has ip d.by_ip ≡ true = has-find ip d.by_ip ∙ ap is_some e in
      rw (e) (ground (arith, there, text_eq_iff ip k))
]

add_dead-IsMap :
    (ip : Bytes) (entry : ArpCacheEntry) (d : Dead)
    → IsMap d.by_ip
    → IsMap (add_dead ip entry (find ip d.by_ip) d).by_ip
add_dead-IsMap ip entry d h = elim (Option-cases (find ip d.by_ip)) [
  | inl e ↦ rw (e) (put-IsMap ip [] d.by_ip h)
  | inr (w, e) ↦ rw (e) h
]

-- An entry that is new, and one of a live address: `t` says that it is the address's, `o` that its address is
-- live and `l` that the one asked for is.
dead_step :
    (t l o a b u : Bool)
    → o ≡ false
    → (t ≡ true → o ≡ l)
    → u ≡ (t || b)
    → ((not l && a) || u) ≡ ((not l && (t || a)) || b)
dead_step true l o a b u h same e = let f : l ≡ false = sym (same refl) ∙ h in ground (arith, f)
dead_step false l o a b u h same e = ground arith

live_step :
    (t l o a b : Bool)
    → o ≡ true
    → (t ≡ true → o ≡ l)
    → ((not l && a) || b) ≡ ((not l && (t || a)) || b)
live_step true l o a b h same = let f : l ≡ true = sym (same refl) ∙ h in ground (arith, f)
live_step false l o a b h same = refl

has-cons :
    {V : Type 0} (k ip : Bytes) (v : V) (m : List (Bytes × V))
    → has k ((ip, v) ∷ m) ≡ (text_eq ip k || has k m)
unfolding has
has-cons k ip v m = refl

module _ (live : List (Bytes × List PortResult)) (ip : Bytes) (entry : ArpCacheEntry)
    (arp : List (Bytes × ArpCacheEntry)) (d : Dead) where
  list_dead-new :
      find ip live ≡ none
      → list_dead live ((ip, entry) ∷ arp) d
        ≡ list_dead live arp (add_dead ip entry (find ip d.by_ip) d)
  unfolding list_dead
  list_dead-new e = rw (e, list_dead) refl

  list_dead-live :
      {w : List PortResult}
      → find ip live ≡ some w
      → list_dead live ((ip, entry) ∷ arp) d ≡ list_dead live arp d
  unfolding list_dead
  list_dead-live e = rw (e, list_dead) refl

list_dead-nil : (live : List (Bytes × List PortResult)) (d : Dead) → list_dead live [] d ≡ d
unfolding list_dead
list_dead-nil live d = refl

has-list_dead :
    (k : Bytes) (live : List (Bytes × List PortResult)) (arp : List (Bytes × ArpCacheEntry))
    (d : Dead)
    → has k (list_dead live arp d).by_ip ≡ ((not (has k live) && has k arp) || has k d.by_ip)
has-list_dead k live [] d = rw (list_dead-nil live d, has-none ArpCacheEntry k) (ground arith)
has-list_dead k live ((ip, entry) ∷ arp) d =
    let same : text_eq ip k ≡ true → has ip live ≡ has k live =
      λ q. ap (λ x. has x live) ((text_eq_iff ip k).0 q) in
    let known : has ip live ≡ is_some (find ip live) = has-find ip live in
    elim (Option-cases (find ip live)) [
      | inl e ↦
          rw (list_dead-new live ip entry arp d e, has-cons k ip entry arp)
            (has-list_dead k live arp (add_dead ip entry (find ip d.by_ip) d)
              ∙ dead_step (text_eq ip k) (has k live) (has ip live) (has k arp) (has k d.by_ip) _
                  (known ∙ ap is_some e) same (has-add_dead k ip entry d))
      | inr (w, e) ↦
          rw (list_dead-live live ip entry arp d e, has-cons k ip entry arp)
            (has-list_dead k live arp d
              ∙ live_step (text_eq ip k) (has k live) (has ip live) (has k arp) (has k d.by_ip)
                  (known ∙ ap is_some e) same)
    ]

list_dead-IsMap :
    (live : List (Bytes × List PortResult)) (arp : List (Bytes × ArpCacheEntry)) (d : Dead)
    → IsMap d.by_ip
    → IsMap (list_dead live arp d).by_ip
list_dead-IsMap live [] d h = rw (list_dead-nil live d) h
list_dead-IsMap live ((ip, entry) ∷ arp) d h = elim (Option-cases (find ip live)) [
  | inl e ↦
      rw (list_dead-new live ip entry arp d e)
        (list_dead-IsMap live arp _ (add_dead-IsMap ip entry d h))
  | inr (w, e) ↦ rw (list_dead-live live ip entry arp d e) (list_dead-IsMap live arp d h)
]

-- The addresses that get a host: a port was found open, or discovery is on and a protocol found the
-- address in a target, or the ARP cache is on and has it in a target.
abbrev pub is_listed :
    Bool → EnrichConfig → List PortScanResult → List Target → List Segment → Bytes → Bool
is_listed discovery enrich arrived targets segments k =
    is_found arrived k
    || ((discovery && (in_segments segments k && is_discovered targets k))
        || (enrich.arp_cache && is_neighbour segments k))

has-with_dead :
    (k : Bytes) (arp_cache : Bool) (arp : List (Bytes × ArpCacheEntry))
    (m : List (Bytes × List PortResult))
    → has k (with_dead arp_cache arp m).by_ip ≡ (has k m || (arp_cache && has k arp))
unfolding with_dead
has-with_dead k true arp m = has-list_dead k m arp _ ∙ ground arith
has-with_dead k false arp m = ground arith

with_dead-IsMap :
    (arp_cache : Bool) (arp : List (Bytes × ArpCacheEntry)) (m : List (Bytes × List PortResult))
    → IsMap m
    → IsMap (with_dead arp_cache arp m).by_ip
unfolding with_dead
with_dead-IsMap true arp m h = list_dead-IsMap m arp _ h
with_dead-IsMap false arp m h = h

module _ (enrich : EnrichConfig) (arrived : List PortScanResult) (targets : List Target)
    (segments : List Segment) where
  pub has-survey :
      (discovery : Bool) (k : Bytes)
      → has k (survey discovery enrich arrived targets segments).dead.by_ip
        ≡ is_listed discovery enrich arrived targets segments k
  unfolding survey survey_hits
  has-survey true k =
      has-with_dead k enrich.arp_cache (all_neighbours segments []) _
      ∙ ground (
        arith,
        has-merge_segments k segments (all_hits targets []) (collect arrived []),
        has-all_hits k targets [],
        has-collect k arrived [],
        has-all_neighbours k segments [],
        has-none ArpCacheEntry k,
        has-none (List PortResult) k,
        has-none DiscoveryHit k,
      )
  has-survey false k =
      has-with_dead k enrich.arp_cache (all_neighbours segments []) _
      ∙ ground (
        arith,
        has-collect k arrived [],
        has-all_neighbours k segments [],
        has-none ArpCacheEntry k,
        has-none (List PortResult) k,
      )

  pub survey-IsMap :
      (discovery : Bool) → IsMap (survey discovery enrich arrived targets segments).dead.by_ip
  unfolding survey
  survey-IsMap true =
      with_dead-IsMap enrich.arp_cache _ _
        (merge_segments-IsMap segments _ _ (collect-IsMap arrived [] tt))
  survey-IsMap false = with_dead-IsMap enrich.arp_cache _ _ (collect-IsMap arrived [] tt)
