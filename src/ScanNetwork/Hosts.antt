-- ===== src/ScanNetwork/Hosts.antt =====
-- The hosts that scanNetwork returns, and the order in which its goroutines finish.
use ipscry.Common.{
  ℕ, ◌<◌, ◌≡◌, refl, sym, ap, ◌∙◌, ◌≢◌, Bool, true, false, ◌||◌, Option, some, List, [], ◌∷◌, map,
  arith, ltb, All, done, Returns, Returns-weaken, Bytes,
}
use ipscry.Common.Text.{text_eq, text_eq_iff}
use mathlib.Core.Path.{subst}
use mathlib.Core.List.{Permᴰ}
use mathlib.Core.List.Permᴰ
use ipscry.Common.Maps.{has, IsMap}
use ipscry.Common.Int.{minus_one}
use ipscry.Common.Order.{any, any-sort, sort_by, IsApart, IsStrict, sort-perm, sort-IsStrict}
use ipscry.Hosts.{PortResult, HostResult}
use ipscry.Ipv4.Value.{}
use ipscry.Tui.{EnrichConfig}
use ipscry.Scan.{PortScanResult}
use ipscry.Enrich.Keeps.{enrich_host-IsHostOf}
use ipscry.ArpCache.{Target}
use ipscry.DeepProbe.{run_deep_http_probe}
use ipscry.Ipv4.{less_address}
use ipscry.ScanNetwork.{
  Segment, all_segments, Survey, survey, sort_hosts, make_host, make_hosts, Surroundings,
  finish_hosts, surveyed_hosts, scan_network,
}
use ipscry.ScanNetwork.Listed.{is_listed, has-survey, survey-IsMap}
use ipscry.ScanNetwork.Deep.{ips_of, Reader, less_address-value, run_deep_http_probe-ips}

-- The lists of addresses and of hosts, in the terms of one another
any-map :
    (k : Bytes) (hosts : List HostResult)
    → any (λ h. text_eq h.ip k) hosts ≡ any (λ a. text_eq a k) (ips_of hosts)
any-map k [] = refl
any-map k (h ∷ hosts) = ap (λ b. text_eq h.ip k || b) (any-map k hosts)

All-map :
    {A B : Type 0} (P : B → Type 0) (f : A → B) (xs : List A)
    → All P (map f xs)
    → All (λ x. P (f x)) xs
All-map P f [] h = tt
All-map P f (x ∷ xs) (h, t) = (h, All-map P f xs t)

IsApart-map :
    {A B : Type 0} (key : B → ℕ) (f : A → B) (xs : List A)
    → IsApart key (map f xs)
    → IsApart (λ x. key (f x)) xs
IsApart-map key f [] h = tt
IsApart-map key f (x ∷ xs) (h, t) =
    (All-map (λ y. key (f x) ≢ key y) f xs h, IsApart-map key f xs t)

All-map_onto :
    {A B : Type 0} (P : B → Type 0) (f : A → B) (xs : List A)
    → All (λ x. P (f x)) xs
    → All P (map f xs)
All-map_onto P f [] h = tt
All-map_onto P f (x ∷ xs) (h, t) = (h, All-map_onto P f xs t)

IsStrict-map :
    {A B : Type 0} (key : B → ℕ) (f : A → B) (xs : List A)
    → IsStrict (λ x. key (f x)) xs
    → IsStrict key (map f xs)
IsStrict-map key f [] h = tt
IsStrict-map key f (x ∷ xs) (h, t) =
    (All-map_onto (λ y. key (f x) < key y) f xs h, IsStrict-map key f xs t)

-- The keys of a map
abbrev keys_of : {V : Type 0} → List (Bytes × V) → List Bytes
keys_of = map (λ e. e.0)

any-keys :
    {V : Type 0} (k : Bytes) (m : List (Bytes × V)) → any (λ a. text_eq a k) (keys_of m) ≡ has k m
unfolding has
any-keys k [] = refl
any-keys k ((j, v) ∷ m) = ap (λ b. text_eq j k || b) (any-keys k m)

plain_keys :
    (p : Bytes → Bool) (ks : List Bytes)
    → ((k : Bytes) → any (λ a. text_eq a k) ks ≡ true → p k ≡ true)
    → All (λ k. p k ≡ true) ks
plain_keys p [] h = tt
plain_keys p (k ∷ ks) h =
    (h k (rw ((text_eq_iff k k).1 refl) refl), plain_keys p ks (λ j e. h j (ground (arith, e))))

-- Keys that are read as other numbers than the ones behind them
fresh :
    (parse : Bytes → Option Bytes) (r : Reader parse) (k : Bytes) (ks : List Bytes)
    → r.plain k ≡ true
    → All (λ j. r.plain j ≡ true) ks
    → any (λ a. text_eq a k) ks ≡ false
    → All (λ j. r.value k ≢ r.value j) ks
fresh parse r k [] h t e = tt
fresh parse r k (j ∷ ks) h (p, t) e = (
  λ same. let eq : j ≡ k = sym (r.apart k j h p same) in ground (arith, (text_eq_iff j k).1 eq, e),
  fresh parse r k ks h t (ground arith),
)

keys-IsApart :
    {V : Type 0} (parse : Bytes → Option Bytes) (r : Reader parse) (m : List (Bytes × V))
    → All (λ j. r.plain j ≡ true) (keys_of m)
    → IsMap m
    → IsApart r.value (keys_of m)
keys-IsApart parse r [] h d = tt
keys-IsApart parse r ((k, v) ∷ m) (h, t) (new, d) =
    (fresh parse r k (keys_of m) h t (any-keys k m ∙ new), keys-IsApart parse r m t d)

module _ (env : Surroundings) (enrich : EnrichConfig) (discovery : Bool)
    (arrived : List PortScanResult) (targets : List Target) (segments : List Segment) where
  make_host-ip :
      (s : Survey) (e : Bytes × List PortResult)
      → (make_host env.lookups env.to_lower env.ouis enrich discovery s e).ip ≡ e.0
  unfolding make_host
  make_host-ip s (ip, ports) =
      (enrich_host-IsHostOf env.lookups env.to_lower env.ouis ip
        (sort_by (λ p q. ltb p.port q.port) ports) enrich discovery s.arp_by_ip s.dead.arp_dead
        s.hits minus_one).0

  make_hosts-ips :
      (s : Survey) (m : List (Bytes × List PortResult))
      → ips_of (map (make_host env.lookups env.to_lower env.ouis enrich discovery s) m) ≡ keys_of m
  make_hosts-ips s [] = refl
  make_hosts-ips s (e ∷ m) = cc (make_host-ip s e, make_hosts-ips s m)

  surveyed-ips :
      ips_of (surveyed_hosts env enrich discovery arrived targets segments)
      ≡ keys_of (survey discovery enrich arrived targets segments).dead.by_ip
  unfolding surveyed_hosts make_hosts
  surveyed-ips =
      let s = survey discovery enrich arrived targets segments in make_hosts-ips s s.dead.by_ip

  module _ (r : Reader env.parse_ip)
      (plain : (k : Bytes)
        → is_listed discovery enrich arrived targets segments k ≡ true
        → r.plain k ≡ true) where
    abbrev hosts : List HostResult
    hosts = surveyed_hosts env enrich discovery arrived targets segments

    any-surveyed :
        (k : Bytes)
        → any (λ h. text_eq h.ip k) hosts ≡ is_listed discovery enrich arrived targets segments k
    any-surveyed k =
        any-map k hosts
        ∙ ap (any (λ a. text_eq a k)) surveyed-ips
        ∙ any-keys k _
        ∙ has-survey enrich arrived targets segments discovery k

    surveyed_plain : All (λ k. r.plain k ≡ true) (ips_of hosts)
    surveyed_plain =
        plain_keys r.plain (ips_of hosts)
          (λ k e. plain k (sym (any-surveyed k) ∙ any-map k hosts ∙ e))

    surveyed-IsApart : IsApart (λ h. r.value h.ip) hosts
    surveyed-IsApart =
        IsApart-map r.value (λ h. h.ip) hosts
          (subst (IsApart r.value) (sym surveyed-ips) (
            keys-IsApart env.parse_ip r _
              (subst (All (λ k. r.plain k ≡ true)) surveyed-ips surveyed_plain)
              (survey-IsMap enrich arrived targets segments discovery)))

    abbrev Plain : HostResult → Type 0
    Plain h = r.plain h.ip ≡ true

    agree :
        (a b : HostResult)
        → Plain a
        → Plain b
        → less_address env.parse_ip a.ip b.ip ≡ ltb (r.value a.ip) (r.value b.ip)
    agree a b h k = less_address-value env.parse_ip r a.ip b.ip h k

    hosts-Plain : All Plain hosts
    hosts-Plain = All-map (λ k. r.plain k ≡ true) (λ h. h.ip) hosts surveyed_plain

    module _ (order : List HostResult → List HostResult)
        (reordered : (l : List HostResult) → Permᴰ l (order l)) where
      sort_order : sort_hosts env.parse_ip (order hosts) ≡ sort_hosts env.parse_ip hosts
      unfolding sort_hosts
      sort_order = sym (
          sort-perm (λ a b. less_address env.parse_ip a.ip b.ip) (λ h. r.value h.ip) Plain agree
            hosts (order hosts) (reordered hosts) hosts-Plain surveyed-IsApart)

      sorted-IsStrict : IsStrict r.value (ips_of (sort_hosts env.parse_ip hosts))
      unfolding sort_hosts
      sorted-IsStrict =
          IsStrict-map r.value (λ h. h.ip) _
            (sort-IsStrict (λ a b. less_address env.parse_ip a.ip b.ip) (λ h. r.value h.ip) Plain
              agree hosts hosts-Plain surveyed-IsApart)

      sorted_listed :
          (k : Bytes)
          → any (λ a. text_eq a k) (ips_of (sort_hosts env.parse_ip hosts))
            ≡ is_listed discovery enrich arrived targets segments k
      unfolding sort_hosts
      sorted_listed k =
          sym (any-map k _)
          ∙ any-sort (λ a b. less_address env.parse_ip a.ip b.ip) (λ h. text_eq h.ip k) hosts
          ∙ any-surveyed k

      scan_network-segments :
          (timed : Bool)
          → all_segments targets ≡ some segments
          → scan_network env order timed enrich discovery arrived targets
            ≡ finish_hosts env timed (order hosts)
      unfolding scan_network
      scan_network-segments timed e = rw (e, scan_network) refl

      -- The addresses rise, and they are the ones that are listed.
      abbrev IsListing : List Bytes → Type 0
      IsListing ips =
          IsStrict r.value ips
          × ((k : Bytes)
              → any (λ a. text_eq a k) ips ≡ is_listed discovery enrich arrived targets segments k)

      finish_sorted :
          (timed : Bool)
          → finish_hosts env timed (order hosts)
            ≡ run_deep_http_probe env.to_lower env.unescape env.network env.port_entries timed
                (sort_hosts env.parse_ip hosts)
      unfolding finish_hosts
      finish_sorted timed =
          ap (run_deep_http_probe env.to_lower env.unescape env.network env.port_entries timed)
            sort_order

      listing :
          (timed : Bool)
          → Returns
              (λ out. IsListing (ips_of out))
              (run_deep_http_probe env.to_lower env.unescape env.network env.port_entries timed
                (sort_hosts env.parse_ip hosts))
      listing timed =
          Returns-weaken _ (λ out. IsListing (ips_of out)) _
            (run_deep_http_probe-ips env.to_lower env.unescape env.network env.port_entries timed
              (sort_hosts env.parse_ip hosts))
            (λ out same. subst IsListing (sym same) (sorted-IsStrict, sorted_listed))

module _ (env : Surroundings) (enrich : EnrichConfig) (discovery timed : Bool)
    (arrived : List PortScanResult) (targets : List Target) (segments : List Segment)
    (order : List HostResult → List HostResult) (r : Reader env.parse_ip)
    (plain : (k : Bytes)
      → is_listed discovery enrich arrived targets segments k ≡ true
      → r.plain k ≡ true)
    (reordered : (l : List HostResult) → Permᴰ l (order l))
    (read : all_segments targets ≡ some segments) where
  -- Where each target is a network and each address found is an IPv4 address in plain text, what scanNetwork
  -- returns does not depend on the order in which the goroutines of the hosts finish.
  pub scan_network-order :
      scan_network env order timed enrich discovery arrived targets
      ≡ scan_network env (λ l. l) timed enrich discovery arrived targets
  scan_network-order =
      scan_network-segments env enrich discovery arrived targets segments r plain order reordered
        timed read
      ∙ finish_sorted env enrich discovery arrived targets segments r plain order reordered timed
      ∙ sym (
          scan_network-segments env enrich discovery arrived targets segments r plain (λ l. l)
            Permᴰ.refl timed read
          ∙ finish_sorted env enrich discovery arrived targets segments r plain (λ l. l) Permᴰ.refl
              timed)

  -- Where each target is a network and each address found is an IPv4 address in plain text, scanNetwork, if
  -- no probe panics, returns one host for each address, in ascending order: those with an open port, with
  -- discovery those that a protocol found for some target and that lie in one, and with the ARP cache those that
  -- it has, with the MAC of a host, in a target, whatever the order in which its goroutines finish.
  pub scan_network-ips :
      (out : List HostResult)
      → scan_network env order timed enrich discovery arrived targets ≡ done out
      → IsStrict r.value (ips_of out)
        × ((k : Bytes)
            → any (λ a. text_eq a k) (ips_of out)
              ≡ is_listed discovery enrich arrived targets segments k)
  scan_network-ips out e =
      subst
        (Returns (λ out.
          IsStrict r.value (ips_of out)
          × ((k : Bytes)
              → any (λ a. text_eq a k) (ips_of out)
                ≡ is_listed discovery enrich arrived targets segments k)))
        (sym (
            scan_network-segments env enrich discovery arrived targets segments r plain order
              reordered timed read
            ∙ finish_sorted env enrich discovery arrived targets segments r plain order reordered
                timed)
          ∙ e)
        (listing env enrich discovery arrived targets segments r plain order reordered timed)
