-- ===== src/Common/Index.antt =====
-- Where `strings.Index` finds what it looks for.
use Prim.Native.Nat.{ℕ, suc, ◌+◌, ◌≤◌}
use mathlib.Core.Path.{◌≡◌, subst}
use mathlib.Core.Logic.{inl, inr}
use mathlib.Core.Bool.{true}
use mathlib.Core.Option.{Option, none, some}
use mathlib.Core.List.{[], ◌∷◌}
use native.Mathlib.Omega.{arith}
use ipscry.Common.Tests.{Bool-cases}
use ipscry.Common.Lists.{length}
use ipscry.Common.Bits.{Bytes}
use ipscry.Common.Text.{has_prefix, index_from, index}

pub has_prefix-length : (p s : Bytes) → has_prefix p s ≡ true → length p ≤ length s
unfolding has_prefix
has_prefix-length [] s h = omega arith
has_prefix-length (x ∷ p) [] h = ground arith
has_prefix-length (x ∷ p) (y ∷ s) h = ground (arith, has_prefix-length p s)

-- A find of `n` bytes from `lo` on and before `hi`
abbrev IsPlace : ℕ → ℕ → ℕ → Option ℕ → Type 0
IsPlace n lo hi none = Unit
IsPlace n lo hi (some k) = (lo ≤ k) × (k + n ≤ hi)

earlier : (n lo hi : ℕ) (o : Option ℕ) → IsPlace n (lo + 1) hi o → IsPlace n lo hi o
earlier n lo hi none h = tt
earlier n lo hi (some k) (h, t) = (omega arith, t)

index_from-IsPlace : (i : ℕ) (p s : Bytes) → IsPlace (length p) i (i + length s) (index_from i p s)
unfolding index_from
index_from-IsPlace i p [] = elim (Bool-cases (has_prefix p [])) [
  | inl e ↦ rw (e) (let fits = has_prefix-length p [] e in (omega arith, omega arith))
  | inr e ↦ rw (e) tt
]
index_from-IsPlace i p (c ∷ s) = elim (Bool-cases (has_prefix p (c ∷ s))) [
  | inl e ↦ rw (e) (let fits = has_prefix-length p (c ∷ s) e in (omega arith, omega arith))
  | inr e ↦
      let back : i + 1 + length s ≡ i + suc (length s) = omega arith in
      rw (e) (
        earlier (length p) i (i + suc (length s)) (index_from (i + 1) p s) (
          subst (λ n. IsPlace (length p) (i + 1) n (index_from (i + 1) p s)) back
            (index_from-IsPlace (i + 1) p s)))
]

pub index-bound : (p s : Bytes) (k : ℕ) → index p s ≡ some k → k + length p ≤ length s
unfolding index
index-bound p s k e =
    let place = subst (IsPlace (length p) 0 (0 + length s)) e (index_from-IsPlace 0 p s) in
    omega (arith, place.1)
