-- ===== src/Ports/Chunks.antt =====
-- The batches that splitIPChunks cuts the addresses into.
use ipscry.Common.{
  ℕ, zero, suc, ◌≤◌, ◌<◌, ◌≡◌, refl, ap, ◌∙◌, inl, inr, ◌||◌, List, [], ◌∷◌, ◌++◌, append-nil,
  arith, leb, ◌==◌, Bool-cases, length, take, drop, All, length-take, length-drop, take-append-drop,
}
use ipscry.Ports.{cut_chunks, split_ip_chunks}

abbrev pub concat {ℓ} : {A : Type ℓ} → List (List A) → List A
concat [] = []
concat (x ∷ xs) = x ++ concat xs

-- A batch is not empty and not larger than the size.
abbrev pub IsChunk {ℓ} : {A : Type ℓ} → ℕ → List A → Type 0
IsChunk size c = (0 < length c) × (length c ≤ size)

module _ {A : Type 0} (size : ℕ) (pos : 0 < size) where
  cut_chunks_lem :
      (fuel : ℕ) (ips : List A)
      → length ips ≤ fuel
      → (concat (cut_chunks fuel size ips) ≡ ips) × All (IsChunk size) (cut_chunks fuel size ips)
  unfolding cut_chunks
  cut_chunks_lem zero [] h = (refl, tt)
  cut_chunks_lem zero (x ∷ ips) h = absurd (omega arith)
  cut_chunks_lem (suc fuel) [] h = (refl, tt)
  cut_chunks_lem (suc fuel) (x ∷ ips) h =
      let all = x ∷ ips in
      let short = length-drop {0} size (x ∷ ips) in
      let cut = length-take {0} size (x ∷ ips) in
      let (whole, chunks) = cut_chunks_lem fuel (drop size (x ∷ ips)) (omega arith) in
      (
        ap (λ r. take size (x ∷ ips) ++ r) whole ∙ take-append-drop size (x ∷ ips),
        ((omega arith, omega arith), chunks),
      )

-- The batches, one after another, are the addresses; a size above 0 is kept by every batch, and no batch
-- is empty where there is an address.
pub concat-split_ip_chunks :
    {A : Type 0} (ips : List A) (size : ℕ)
    → 0 < size
    → 0 < length ips
    → (concat (split_ip_chunks ips size) ≡ ips) × All (IsChunk size) (split_ip_chunks ips size)
unfolding split_ip_chunks
concat-split_ip_chunks ips size pos some_ = elim (Bool-cases (size == 0 || leb (length ips) size)) [
  | inl e ↦ rw (e) (append-nil ips, ((some_, ground arith), tt))
  | inr e ↦ rw (e) (cut_chunks_lem size pos (length ips) ips (omega arith))
]
