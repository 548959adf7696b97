-- ===== src/Common/Split.antt =====
-- The laws of Split and Join.
use ipscry.Common.{
  ℕ, ◌≡◌, refl, sym, inl, inr, List, [], ◌∷◌, ◌++◌, append-nil, append_assoc, arith, ◌==◌,
  Bool-cases, Bytes,
}
use ipscry.Common.Text.{split_onto, split, join}

split_onto-ne_nil :
    (sep : ℕ) (part s : Bytes) → (x : Bytes) × (xs : List Bytes) × (split_onto sep part s ≡ x ∷ xs)
unfolding split_onto
split_onto-ne_nil sep part [] = (part, [], refl)
split_onto-ne_nil sep part (c ∷ s) = elim (Bool-cases (c == sep)) [
  | inl e ↦ (part, split_onto sep [] s, rw e)
  | inr e ↦ let (x, xs, more) = split_onto-ne_nil sep (part ++ c ∷ []) s in (x, xs, rw e more)
]

join-cons_ne :
    (sep x y : Bytes) (ys xs : List Bytes)
    → xs ≡ y ∷ ys
    → join sep (x ∷ xs) ≡ x ++ (sep ++ join sep xs)
unfolding join
join-cons_ne sep x y ys xs e = rw e

join-split_onto : (sep : ℕ) (part s : Bytes) → join (sep ∷ []) (split_onto sep part s) ≡ part ++ s
unfolding split_onto
join-split_onto sep part [] = unfold join in sym (append-nil part)
join-split_onto sep part (c ∷ s) = elim (Bool-cases (c == sep)) [
  | inl e ↦
      let (x, xs, more) = split_onto-ne_nil sep [] s in
      let same : c ≡ sep = ground arith in
      rw (
        e,
        join-cons_ne (sep ∷ []) part x xs (split_onto sep [] s) more,
        join-split_onto sep [] s,
        same,
      )
  | inr e ↦ rw (e, join-split_onto sep (part ++ c ∷ []) s, append_assoc part (c ∷ []) s)
]

-- Joining the parts at the separator gives the text back.
pub join-split : (sep : ℕ) (s : Bytes) → join (sep ∷ []) (split sep s) ≡ s
unfolding split
join-split sep s = join-split_onto sep [] s
