-- ===== src/Lan/Described.antt =====
-- The descriptions that fetchUPnPDescriptions adds, and the hits that runLANDiscovery returns.
use ipscry.Common.{◌≡◌, Bool, true, Option, List, [], All, Bytes}
use ipscry.Common.Maps.{has, IsMap}
use mathlib.Core.List.{Permᴰ}
use ipscry.Common.Order.{any}
use ipscry.Args.{DiscoveryConfig}
use ipscry.Packets.{Hits, hit_of}
use ipscry.Lan.{merge_partials, Answers, partials}
use ipscry.Lan.Merged.{AreOwn, has_source, gives_source, are_found}

module _ (lower : Bytes → Bytes) where
  -- The descriptions of UPnP leave the addresses and the sources.
  abbrev pub IsDescribed : Hits → Hits → Type 0
  IsDescribed m out =
      ((k : Bytes) → has k out ≡ has k m)
      × ((k : Bytes) → (hit_of k out).sources ≡ (hit_of k m).sources)
      × AreOwn out

  module _ (get : Bytes → Option Bytes) where
    module _ (in_target : Bytes → Bool) (cfg : DiscoveryConfig) (a : Answers)
        (order : List Hits → List Hits) (reordered : (l : List Hits) → Permᴰ l (order l))
        (maps : All IsMap (partials cfg a)) (enabled : cfg.enabled ≡ true) where
      -- The hits are those of the protocols that are on.
      abbrev pub IsUnion : Hits → Type 0
      IsUnion out =
          ((k : Bytes) → has k out ≡ are_found lower in_target k (partials cfg a))
          × ((k : Bytes) → has k out ≡ true → (hit_of k out).ip ≡ k)
          × ((s k : Bytes)
              → has_source lower s k out ≡ any (gives_source lower in_target s k) (partials cfg a))

      abbrev merged_hits : Hits
      merged_hits = merge_partials lower in_target (order (partials cfg a)) []
