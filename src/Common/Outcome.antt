-- ===== src/Common/Outcome.antt =====
-- Go computations that may stop: an index out of range panics, and a loop on fuel may be cut off.
use Prim.Native.Nat.{ℕ, ◌+◌, ◌-◌, ◌≤◌, ◌<◌}
use mathlib.Core.Path.{◌≡◌, refl, ap, ◌∙◌}
use mathlib.Core.Bool.{Bool, true, false, ◌&&◌}
use mathlib.Core.Option.{none, some}
use mathlib.Core.List.{List, ◌∷◌, ◌++◌}
use native.Mathlib.Omega.{arith}
use ipscry.Common.Tests.{if◌then◌else◌, leb}
use ipscry.Common.Lists.{
  length, get_elem?, get_elem?-lt, get_elem?-append, take, drop, drop-length, take-length,
  length-append,
}

-- `panic` is a run-time panic. `stuck` is no Go value: the model's fuel ran out.
pub data Go {ℓ} (A : Type ℓ) : Type ℓ where
  done : A → Go A
  panic : Go A
  stuck : Go A

infixl 5 ◌>>=◌
abbrev pub ◌>>=◌ {ℓ κ} : {A : Type ℓ} {B : Type κ} → Go A → (A → Go B) → Go B
done a >>= f = f a
panic >>= f = panic
stuck >>= f = stuck

-- The computation ends with a value that has the property.
abbrev pub Ends {ℓ} : {A : Type ℓ} → (A → Type 0) → Go A → Type 0
Ends P (done a) = P a
Ends P panic = ⊥
Ends P stuck = ⊥

-- It does not panic, and a value that it ends with has the property.
abbrev pub Safe {ℓ} : {A : Type ℓ} → (A → Type 0) → Go A → Type 0
Safe P (done a) = P a
Safe P panic = ⊥
Safe P stuck = Unit

-- A run that returns returns a value with the property.
abbrev pub Returns : {A : Type 0} → (A → Type 0) → Go A → Type 0
Returns P (done a) = P a
Returns P panic = Unit
Returns P stuck = Unit

pub Returns-bind :
    {A B : Type 0} (P : A → Type 0) (Q : B → Type 0) (m : Go A) (f : A → Go B)
    → Returns P m
    → ((a : A) → P a → Returns Q (f a))
    → Returns Q (m >>= f)
Returns-bind P Q (done a) f h k = k a h
Returns-bind P Q panic f h k = tt
Returns-bind P Q stuck f h k = tt

pub if_Returns :
    {A : Type 0} (P : A → Type 0) (b : Bool) (m n : Go A)
    → Returns P m
    → Returns P n
    → Returns P (if b then m else n)
if_Returns P true m n h k = h
if_Returns P false m n h k = k

pub Returns-weaken :
    {A : Type 0} (P Q : A → Type 0) (m : Go A) → Returns P m → ((a : A) → P a → Q a) → Returns Q m
Returns-weaken P Q (done a) h k = k a h
Returns-weaken P Q panic h k = tt
Returns-weaken P Q stuck h k = tt

pub returned : {A : Type 0} (m : Go A) → Returns (λ a. Unit) m
returned (done a) = tt
returned panic = tt
returned stuck = tt

pub Ends-bind {ℓ κ} :
    {A : Type ℓ} {B : Type κ} (P : A → Type 0) (Q : B → Type 0) (m : Go A) (f : A → Go B)
    → Ends P m
    → ((a : A) → P a → Ends Q (f a))
    → Ends Q (m >>= f)
Ends-bind P Q (done a) f h k = k a h
Ends-bind P Q panic f h k = absurd h
Ends-bind P Q stuck f h k = absurd h

pub Safe-bind {ℓ κ} :
    {A : Type ℓ} {B : Type κ} (P : A → Type 0) (Q : B → Type 0) (m : Go A) (f : A → Go B)
    → Safe P m
    → ((a : A) → P a → Safe Q (f a))
    → Safe Q (m >>= f)
Safe-bind P Q (done a) f h k = k a h
Safe-bind P Q panic f h k = absurd h
Safe-bind P Q stuck f h k = tt

pub Ends-Safe {ℓ} : {A : Type ℓ} (P : A → Type 0) (m : Go A) → Ends P m → Safe P m
Ends-Safe P (done a) h = h
Ends-Safe P panic h = h
Ends-Safe P stuck h = tt

module _ {A : Type 0} where
  -- `b[i]`
  unfoldable pub at : List A → ℕ → Go A
  at b i = elim (get_elem? b i) [ none ↦ panic | some x ↦ done x ]

  -- `b[lo:hi]`; a Go slice may reach into the spare capacity, which the model counts as a panic.
  unfoldable pub slice : List A → ℕ → ℕ → Go (List A)
  slice b lo hi =
      if leb lo hi && leb hi (length b) then done (take (hi - lo) (drop lo b)) else panic

  pub at-lt : (b : List A) (i : ℕ) → i < length b → (x : A) × (at b i ≡ done x)
  unfolding at
  at-lt b i h = let (x, e) = get_elem?-lt b i h in (x, rw (e, at))

  pub slice-le :
      (b : List A) (lo hi : ℕ)
      → lo ≤ hi
      → hi ≤ length b
      → slice b lo hi ≡ done (take (hi - lo) (drop lo b))
  unfolding slice
  slice-le b lo hi h k = ground arith

  -- A read behind a known front.
  pub at-append :
      (front back : List A) (x : A) (i : ℕ) → i ≡ length front → at (front ++ (x ∷ back)) i ≡ done x
  unfolding at
  at-append front back x i e = rw (get_elem?-append front (x ∷ back) i 0 (omega arith), at)

  -- A read in what stands behind a known front.
  pub at-offset :
      (front back : List A) (i j : ℕ) → i ≡ length front + j → at (front ++ back) i ≡ at back j
  unfolding at
  at-offset front back i j e = rw (get_elem?-append front back i j e, at) refl

  pub slice-append :
      (front c rest : List A)
      → slice (front ++ (c ++ rest)) (length front) (length front + length c) ≡ done c
  slice-append front c rest =
      let sizes = length-append front (c ++ rest) in
      let sizes' = length-append c rest in
      let n = length front + length c - length front in
      let back : take n (drop (length front) (front ++ (c ++ rest))) ≡ c =
        ap (take n) (drop-length front (c ++ rest))
        ∙ ap (λ k. take k (c ++ rest)) cancel
        ∙ take-length c rest in
      slice-le (front ++ (c ++ rest)) (length front) (length front + length c) (omega arith)
        (omega (arith, sizes, sizes'))
      ∙ ap done back
    where
      cancel : length front + length c - length front ≡ length c
      cancel = omega arith
