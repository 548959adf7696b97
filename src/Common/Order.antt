-- ===== src/Common/Order.antt =====
-- `sort.Slice` with the test that it is given, on a list.
use ipscry.Common.{
  ℕ, ◌<◌, ◌≡◌, refl, sym, ap, ◌∙◌, ◌≢◌, inl, inr, Bool, false, ◌||◌, List, [], ◌∷◌, arith, ltb,
  if◌then◌else◌, Bool-cases, All,
}
use mathlib.Core.Path.{subst}
use mathlib.Core.List.{Permᴰ}

-- Some element passes the test.
abbrev pub any {ℓ} : {A : Type ℓ} → (A → Bool) → List A → Bool
any p [] = false
any p (x ∷ xs) = p x || any p xs

module _ {A : Type 0} (before : A → A → Bool) where
  unfoldable pub insert_by : A → List A → List A
  insert_by x [] = x ∷ []
  insert_by x (y ∷ ys) = let rest = insert_by x ys in if before y x then y ∷ rest else x ∷ y ∷ ys

  unfoldable pub sort_by : List A → List A
  unfolding insert_by
  sort_by [] = []
  sort_by (x ∷ xs) = insert_by x (sort_by xs)

  any-insert : (p : A → Bool) (x : A) (xs : List A) → any p (insert_by x xs) ≡ (p x || any p xs)
  unfolding insert_by
  any-insert p x [] = refl
  any-insert p x (y ∷ ys) = ground (arith, any-insert p x ys)

  pub any-sort : (p : A → Bool) (xs : List A) → any p (sort_by xs) ≡ any p xs
  unfolding sort_by
  any-sort p [] = refl
  any-sort p (x ∷ xs) = any-insert p x (sort_by xs) ∙ ap (λ b. p x || b) (any-sort p xs)

  All-insert : (P : A → Type 0) (x : A) (xs : List A) → P x → All P xs → All P (insert_by x xs)
  unfolding insert_by
  All-insert P x [] h t = (h, tt)
  All-insert P x (y ∷ ys) h (k, t) = elim (Bool-cases (before y x)) [
    | inl e ↦ rw (e) (k, All-insert P x ys h t)
    | inr e ↦ rw (e) (h, (k, t))
  ]

  pub All-sort : (P : A → Type 0) (xs : List A) → All P xs → All P (sort_by xs)
  unfolding sort_by
  All-sort P [] h = tt
  All-sort P (x ∷ xs) (h, t) = All-insert P x (sort_by xs) h (All-sort P xs t)

abbrev pub IsApart : {A : Type 0} → (A → ℕ) → List A → Type 0
IsApart key [] = Unit
IsApart key (x ∷ xs) = All (λ y. key x ≢ key y) xs × IsApart key xs

abbrev pub IsStrict : {A : Type 0} → (A → ℕ) → List A → Type 0
IsStrict key [] = Unit
IsStrict key (x ∷ xs) = All (λ y. key x < key y) xs × IsStrict key xs

pub All-perm : {A : Type 0} (P : A → Type 0) (a b : List A) → Permᴰ a b → All P a → All P b
All-perm P _ _ Permᴰ.nil h = h
All-perm P _ _ (Permᴰ.cons e p) (h, t) = (subst P e h, All-perm P _ _ p t)
All-perm P _ _ (Permᴰ.swap e f) (h, (k, t)) = (subst P f k, (subst P e h, t))
All-perm P _ _ (Permᴰ.trans p q) h = All-perm P _ _ q (All-perm P _ _ p h)

pub any-perm : {A : Type 0} (p : A → Bool) (a b : List A) → Permᴰ a b → any p a ≡ any p b
any-perm p _ _ Permᴰ.nil = refl
any-perm p (x ∷ a) (y ∷ b) (Permᴰ.cons e q) = cc (any-perm p a b q, ap p e)
any-perm p (x ∷ y ∷ l) (x' ∷ y' ∷ _) (Permᴰ.swap e f) = ground (arith, ap p e, ap p f)
any-perm p _ _ (Permᴰ.trans q r) = any-perm p _ _ q ∙ any-perm p _ _ r

-- The test is the order of a number, on the elements that are fit.
module _ {A : Type 0} (before : A → A → Bool) (key : A → ℕ) (Fit : A → Type 0)
    (agree : (x y : A) → Fit x → Fit y → before x y ≡ ltb (key x) (key y)) where
  insert-insert :
      (x y : A) (l : List A)
      → Fit x
      → Fit y
      → All Fit l
      → key x ≢ key y
      → insert_by before x (insert_by before y l) ≡ insert_by before y (insert_by before x l)
  unfolding insert_by
  insert-insert x y [] f g t h = ground (arith, agree x y f g, agree y x g f)
  insert-insert x y (z ∷ l) f g (k, t) h = ground (
    arith,
    agree x y f g,
    agree y x g f,
    agree z x k f,
    agree z y k g,
    insert-insert x y l f g t h,
  )

  pub IsApart-perm : (a b : List A) → Permᴰ a b → IsApart key a → IsApart key b
  IsApart-perm _ _ Permᴰ.nil h = h
  IsApart-perm (x ∷ _) (y ∷ ys) (Permᴰ.cons e p) (h, t) = (
    subst (λ z. All (λ y. key z ≢ key y) ys) e (All-perm (λ y. key x ≢ key y) _ _ p h),
    IsApart-perm _ _ p t,
  )
  IsApart-perm (x ∷ y ∷ l) (x' ∷ y' ∷ _) (Permᴰ.swap e f) ((h, u), (v, t)) = (
    (
      subst (λ z. key x' ≢ key z) e (subst (λ z. key z ≢ key x) f (λ q. h (sym q))),
      subst (λ z. All (λ w. key z ≢ key w) l) f v,
    ),
    (subst (λ z. All (λ w. key z ≢ key w) l) e u, t),
  )
  IsApart-perm _ _ (Permᴰ.trans p q) h = IsApart-perm _ _ q (IsApart-perm _ _ p h)

  -- Elements that differ in the number come out in one order, whatever the order of the input.
  pub sort-perm :
      (a b : List A) → Permᴰ a b → All Fit a → IsApart key a → sort_by before a ≡ sort_by before b
  unfolding sort_by
  sort-perm _ _ Permᴰ.nil f d = refl
  sort-perm (x ∷ a) (y ∷ b) (Permᴰ.cons e p) (f, t) (h, d) = cc (sort-perm a b p t d, e)
  sort-perm (x ∷ y ∷ l) (x' ∷ y' ∷ _) (Permᴰ.swap e f) (g, (k, t)) ((h, u), d) =
      insert-insert x y (sort_by before l) g k (All-sort before Fit l t) h ∙ cc (e, f)
  sort-perm a b (Permᴰ.trans p q) f d =
      sort-perm _ _ p f d ∙ sort-perm _ _ q (All-perm Fit _ _ p f) (IsApart-perm _ _ p d)

  above :
      (x z : A) (l : List A)
      → key z < key x
      → All (λ y. key x < key y) l
      → All (λ y. key z < key y) l
  above x z [] h t = tt
  above x z (y ∷ l) h (k, t) = (omega arith, above x z l h t)

  insert-IsStrict :
      (x : A) (l : List A)
      → Fit x
      → All Fit l
      → All (λ y. key x ≢ key y) l
      → IsStrict key l
      → IsStrict key (insert_by before x l)
  unfolding insert_by
  insert-IsStrict x [] f t d s = (tt, tt)
  insert-IsStrict x (y ∷ l) f (g, t) (ne, d) (low, s) = elim (Bool-cases (before y x)) [
    | inl e ↦
        let lt : key y < key x = ground (arith, agree y x g f) in
        rw (e) (All-insert before (λ z. key y < key z) x l lt low, insert-IsStrict x l f t d s)
    | inr e ↦
        let lt : key x < key y = ground (arith, agree y x g f) in
        rw (e) ((lt, above y x l lt low), (low, s))
  ]

  pub sort-IsStrict : (xs : List A) → All Fit xs → IsApart key xs → IsStrict key (sort_by before xs)
  unfolding sort_by
  sort-IsStrict [] f d = tt
  sort-IsStrict (x ∷ xs) (f, t) (h, d) =
      insert-IsStrict x (sort_by before xs) f (All-sort before Fit xs t)
        (All-sort before (λ y. key x ≢ key y) xs h) (sort-IsStrict xs t d)
