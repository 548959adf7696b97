-- ===== src/Common/Maps.antt =====
-- A Go map with string keys, as an association list.
use ipscry.Common.{
  ◌≡◌, refl, ◌∙◌, Bool, true, false, not, ◌&&◌, ◌||◌, inl, inr, Bool-cases, Option, none, some,
  List, [], ◌∷◌, arith, if◌then◌else◌, Bytes,
}
use mathlib.Core.Path.{subst}
use ipscry.Common.Text.{text_eq, text_eq_iff}

module _ {ℓ} {V : Type ℓ} where
  -- `v, ok := m[k]`
  unfoldable pub find : Bytes → List (Bytes × V) → Option V
  find k [] = none
  find k ((j, v) ∷ m) = if text_eq j k then some v else find k m

  -- `m[k] = v`
  unfoldable pub put : Bytes → V → List (Bytes × V) → List (Bytes × V)
  put k v [] = (k, v) ∷ []
  put k v ((j, w) ∷ m) = if text_eq j k then (k, v) ∷ m else (j, w) ∷ put k v m

  -- `delete(m, k)`
  unfoldable pub remove : Bytes → List (Bytes × V) → List (Bytes × V)
  remove k [] = []
  remove k ((j, w) ∷ m) = if text_eq j k then remove k m else (j, w) ∷ remove k m

module _ {V : Type 0} where
  pub find-put :
      (k j : Bytes) (v : V) (m : List (Bytes × V))
      → find j (put k v m) ≡ (if text_eq k j then some v else find j m)
  unfolding find put
  find-put k j v [] = refl
  find-put k j v ((i, w) ∷ m) =
      ground (arith, text_eq_iff k j, text_eq_iff i k, text_eq_iff i j, find-put k j v m)

  -- The key is in the map.
  unfoldable pub has : Bytes → List (Bytes × V) → Bool
  has k [] = false
  has k ((j, v) ∷ m) = text_eq j k || has k m

  abbrev pub is_some : Option V → Bool
  is_some none = false
  is_some (some v) = true

  pub has-find : (k : Bytes) (m : List (Bytes × V)) → has k m ≡ is_some (find k m)
  unfolding has find
  has-find k [] = refl
  has-find k ((j, v) ∷ m) = ground (arith, has-find k m)

  pub has-put :
      (k j : Bytes) (v : V) (m : List (Bytes × V)) → has j (put k v m) ≡ (text_eq k j || has j m)
  unfolding has put
  has-put k j v [] = refl
  has-put k j v ((i, w) ∷ m) =
      ground (arith, text_eq_iff k j, text_eq_iff i k, text_eq_iff i j, has-put k j v m)

  -- Each key once
  abbrev pub IsMap : List (Bytes × V) → Type 0
  IsMap [] = Unit
  IsMap ((k, v) ∷ m) = (has k m ≡ false) × IsMap m

  pub put-IsMap : (k : Bytes) (v : V) (m : List (Bytes × V)) → IsMap m → IsMap (put k v m)
  unfolding put
  put-IsMap k v [] h = (unfold has in refl, tt)
  put-IsMap k v ((j, w) ∷ m) (h, t) = elim (Bool-cases (text_eq j k)) [
    | inl e ↦ rw (e) (subst (λ i. has i m ≡ false) ((text_eq_iff j k).0 e) h, t)
    | inr e ↦
        let ne : text_eq k j ≡ false = ground (arith, text_eq_iff j k, text_eq_iff k j) in
        rw (e) (has-put k j v m ∙ rw (ne) h, put-IsMap k v m t)
  ]

  pub has-remove :
      (k j : Bytes) (m : List (Bytes × V)) → has k (remove j m) ≡ (not (text_eq j k) && has k m)
  unfolding has remove
  has-remove k j [] = ground arith
  has-remove k j ((i, v) ∷ m) =
      ground (arith, has-remove k j m, text_eq_iff i j, text_eq_iff i k, text_eq_iff j k)
