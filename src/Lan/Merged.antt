-- ===== src/Lan/Merged.antt =====
-- What runLANDiscovery makes of the hits of the protocols.
use ipscry.Common.{
  ◌≡◌, refl, sym, ap, ◌∙◌, inl, inr, Bool, true, false, not, ◌&&◌, ◌||◌, List, [], ◌∷◌, arith,
  if◌then◌else◌, Bool-cases, Option-cases, All, Bytes,
}
use ipscry.Common.Text.{text_eq, text_eq_iff}
use mathlib.Core.Path.{subst}
use ipscry.Common.Maps.{find, put, find-put, has, has-find, has-put, IsMap, is_some}
use ipscry.Common.Order.{any}
use ipscry.Hosts.{DiscoveryHit, blank_hit}
use ipscry.Discovery.{
  has_key, append_source, append_unique_strings, merge_discovery_hit, is_offered,
  has_key-append_unique_strings,
}
use ipscry.Packets.{Hits, or_blank, hit_of}
use ipscry.Lan.{merge_partial, merge_partials}

pub find-hit_of :
    (k ip : Bytes) (hit : DiscoveryHit) (m : Hits)
    → hit_of k (put ip hit m) ≡ (if text_eq ip k then hit else hit_of k m)
unfolding hit_of
find-hit_of k ip hit m = elim (Bool-cases (text_eq ip k)) [
  | inl e ↦ rw (find-put ip k hit m) (rw (e) refl)
  | inr e ↦ rw (find-put ip k hit m) (rw (e) refl)
]

hit_of-cons :
    (k ip : Bytes) (hit : DiscoveryHit) (m : Hits)
    → hit_of k ((ip, hit) ∷ m) ≡ (if text_eq ip k then hit else hit_of k m)
unfolding hit_of find
hit_of-cons k ip hit m = elim (Bool-cases (text_eq ip k)) [
  | inl e ↦ rw (e) refl
  | inr e ↦ rw (e) refl
]

hit_of-missing : (k : Bytes) (m : Hits) → has k m ≡ false → hit_of k m ≡ blank_hit
unfolding hit_of
hit_of-missing k m e = elim (Option-cases (find k m)) [
  | inl none_there ↦ ap or_blank none_there
  | inr (hit, there) ↦ cc (has-find k m, ap is_some there, e)
]

-- A hit has the address that it is listed under.
abbrev pub AreOwn : Hits → Type 0
AreOwn m = All (λ e. e.1.ip ≡ e.0) m

pub put-AreOwn :
    (ip : Bytes) (hit : DiscoveryHit) (m : Hits) → hit.ip ≡ ip → AreOwn m → AreOwn (put ip hit m)
unfolding put
put-AreOwn ip hit [] e h = (e, tt)
put-AreOwn ip hit ((j, old) ∷ m) e (h, t) = elim (Bool-cases (text_eq j ip)) [
  | inl same ↦ rw (same) (e, t)
  | inr other ↦ rw (other) (h, put-AreOwn ip hit m e t)
]

pub hit_of-ip : (k : Bytes) (m : Hits) → AreOwn m → has k m ≡ true → (hit_of k m).ip ≡ k
unfolding hit_of find has
hit_of-ip k [] h e = cc
hit_of-ip k ((j, hit) ∷ m) (h, t) e = elim (Bool-cases (text_eq j k)) [
  | inl same ↦ rw (same) (h ∙ (text_eq_iff j k).0 same)
  | inr other ↦ rw (other) (hit_of-ip k m t (ground (arith, e, other)))
]

module _ (lower : Bytes → Bytes) where
  has_key-append_source :
      (s : Bytes) (existing sources : List Bytes)
      → has_key lower s (append_source lower existing sources)
        ≡ (has_key lower s existing || is_offered lower s sources)
  unfolding append_source
  has_key-append_source s existing [] = ground arith
  has_key-append_source s existing (v ∷ sources) =
      has_key-append_source s (append_unique_strings lower existing (v ∷ [])) sources
      ∙ ground (arith, has_key-append_unique_strings lower s existing (v ∷ []))

  -- The source, up to letter case, is among those of the address.
  abbrev pub has_source : Bytes → Bytes → Hits → Bool
  has_source s k m = has_key lower s (hit_of k m).sources

  -- A protocol gives the source for the address, in the target.
  abbrev pub gives_source : (Bytes → Bool) → Bytes → Bytes → Hits → Bool
  gives_source in_target s k found = in_target k && is_offered lower s (hit_of k found).sources

  merged :
      (s ip : Bytes) (hit : DiscoveryHit) (m : Hits)
      → has_key lower s (merge_discovery_hit lower (record (hit_of ip m) { ip = ip }) hit).sources
        ≡ (is_offered lower s hit.sources || has_source s ip m)
  unfolding merge_discovery_hit
  merged s ip hit m = has_key-append_source s (hit_of ip m).sources hit.sources ∙ ground arith

  module _ (in_target : Bytes → Bool) where
    abbrev with_hit : Bytes → DiscoveryHit → Hits → Hits
    with_hit ip hit m =
        if not (in_target ip)
        then m
        else put ip (merge_discovery_hit lower (record (hit_of ip m) { ip = ip }) hit) m

    same_target : (ip k : Bytes) → text_eq ip k ≡ true → in_target ip ≡ in_target k
    same_target ip k e = ap in_target ((text_eq_iff ip k).0 e)

    with_hit-has :
        (k ip : Bytes) (hit : DiscoveryHit) (m : Hits)
        → has k (with_hit ip hit m) ≡ ((in_target k && text_eq ip k) || has k m)
    with_hit-has k ip hit m = elim (Bool-cases (in_target ip)) [
      | inl e ↦ rw (e) (has-put ip k _ m ∙ ground (arith, e, same_target ip k))
      | inr e ↦ rw (e) (ground (arith, e, same_target ip k))
    ]

    with_hit-AreOwn :
        (ip : Bytes) (hit : DiscoveryHit) (m : Hits) → AreOwn m → AreOwn (with_hit ip hit m)
    unfolding merge_discovery_hit
    with_hit-AreOwn ip hit m h = elim (Bool-cases (in_target ip)) [
      | inl e ↦ rw (e) (put-AreOwn ip _ m refl h)
      | inr e ↦ rw (e) h
    ]

    with_hit-source :
        (s k ip : Bytes) (hit : DiscoveryHit) (m : Hits)
        → has_source s k (with_hit ip hit m)
          ≡ ((in_target k && (text_eq ip k && is_offered lower s hit.sources)) || has_source s k m)
    with_hit-source s k ip hit m = elim (Bool-cases (in_target ip)) [
      | inr e ↦ rw (e) (ground (arith, e, same_target ip k))
      | inl e ↦ elim (Bool-cases (text_eq ip k)) [
        | inr other ↦ rw (e) (rw (find-hit_of k ip _ m) (rw (other) (ground arith)))
        | inl same ↦
            let inside : in_target k ≡ true = sym (same_target ip k same) ∙ e in
            rw (e) (
              rw (find-hit_of k ip _ m) (
                rw (same, inside)
                  (merged s ip hit m
                    ∙ ap (λ j. is_offered lower s hit.sources || has_source s j m)
                        ((text_eq_iff ip k).0 same))))
      ]
    ]

    has-merge_partial :
        (k : Bytes) (found m : Hits)
        → has k (merge_partial lower in_target found m) ≡ ((in_target k && has k found) || has k m)
    unfolding merge_partial has
    has-merge_partial k [] m = ground arith
    has-merge_partial k ((ip, hit) ∷ found) m =
        has-merge_partial k found (with_hit ip hit m) ∙ ground (arith, with_hit-has k ip hit m)

    merge_partial-AreOwn :
        (found m : Hits) → AreOwn m → AreOwn (merge_partial lower in_target found m)
    unfolding merge_partial
    merge_partial-AreOwn [] m h = h
    merge_partial-AreOwn ((ip, hit) ∷ found) m h =
        merge_partial-AreOwn found (with_hit ip hit m) (with_hit-AreOwn ip hit m h)

    gives_source-cons :
        (s k ip : Bytes) (hit : DiscoveryHit) (found : Hits)
        → has ip found ≡ false
        → gives_source in_target s k ((ip, hit) ∷ found) ≡ (
            (in_target k && (text_eq ip k && is_offered lower s hit.sources))
            || gives_source in_target s k found)
    gives_source-cons s k ip hit found new = elim (Bool-cases (text_eq ip k)) [
      | inl same ↦
          let gone : has k found ≡ false =
            subst (λ j. has j found ≡ false) ((text_eq_iff ip k).0 same) new in
          rw (hit_of-cons k ip hit found, hit_of-missing k found gone) (rw (same) (ground arith))
      | inr other ↦ rw (hit_of-cons k ip hit found) (rw (other) (ground arith))
    ]

    merge_partial-source :
        (s k : Bytes) (found m : Hits)
        → IsMap found
        → has_source s k (merge_partial lower in_target found m)
          ≡ (gives_source in_target s k found || has_source s k m)
    unfolding merge_partial
    merge_partial-source s k [] m h = ground arith
    merge_partial-source s k ((ip, hit) ∷ found) m (new, h) =
        merge_partial-source s k found (with_hit ip hit m) h
        ∙ ap (λ b. gives_source in_target s k found || b) (with_hit-source s k ip hit m)
        ∙ ground (arith, gives_source-cons s k ip hit found new)

    -- The protocols one after another
    abbrev pub are_found : Bytes → List Hits → Bool
    are_found k ps = in_target k && any (λ found. has k found) ps

    pub has-merge_partials :
        (k : Bytes) (ps : List Hits) (m : Hits)
        → has k (merge_partials lower in_target ps m) ≡ (are_found k ps || has k m)
    unfolding merge_partials
    has-merge_partials k [] m = ground arith
    has-merge_partials k (found ∷ ps) m =
        has-merge_partials k ps (merge_partial lower in_target found m)
        ∙ ground (arith, has-merge_partial k found m)

    pub merge_partials-AreOwn :
        (ps : List Hits) (m : Hits) → AreOwn m → AreOwn (merge_partials lower in_target ps m)
    unfolding merge_partials
    merge_partials-AreOwn [] m h = h
    merge_partials-AreOwn (found ∷ ps) m h =
        merge_partials-AreOwn ps _ (merge_partial-AreOwn found m h)

    pub merge_partials-source :
        (s k : Bytes) (ps : List Hits) (m : Hits)
        → All IsMap ps
        → has_source s k (merge_partials lower in_target ps m)
          ≡ (any (gives_source in_target s k) ps || has_source s k m)
    unfolding merge_partials
    merge_partials-source s k [] m h = refl
    merge_partials-source s k (found ∷ ps) m (h, t) =
        merge_partials-source s k ps (merge_partial lower in_target found m) t
        ∙ ground (arith, merge_partial-source s k found m h)
