-- ===== src/Scan/Sorting.antt =====
-- Sorting the open ports of a host, and the order in which they were found.
use ipscry.Common.{
  ◌<◌, ◌≡◌, refl, sym, ap, ◌∙◌, ◌≢◌, inl, inr, true, false, List, [], ◌∷◌, arith, ltb, Bool-cases,
  All,
}
use mathlib.Core.Path.{subst}
use mathlib.Core.List.{Permᴰ}
use ipscry.Hosts.{PortResult}
use ipscry.Scan.{insert_result, sort_results}

abbrev pub IsDistinct : List PortResult → Type 0
IsDistinct [] = Unit
IsDistinct (x ∷ xs) = All (λ y. x.port ≢ y.port) xs × IsDistinct xs

abbrev pub IsRising : List PortResult → Type 0
IsRising [] = Unit
IsRising (x ∷ xs) = All (λ y. x.port < y.port) xs × IsRising xs

All-perm : (P : PortResult → Type 0) (a b : List PortResult) → Permᴰ a b → All P a → All P b
All-perm P _ _ Permᴰ.nil h = h
All-perm P _ _ (Permᴰ.cons e p) (h, t) = (subst P e h, All-perm P _ _ p t)
All-perm P _ _ (Permᴰ.swap e f) (h, (k, t)) = (subst P f k, (subst P e h, t))
All-perm P _ _ (Permᴰ.trans p q) h = All-perm P _ _ q (All-perm P _ _ p h)

pub IsDistinct-perm : (a b : List PortResult) → Permᴰ a b → IsDistinct a → IsDistinct b
IsDistinct-perm _ _ Permᴰ.nil h = h
IsDistinct-perm (x ∷ _) (y ∷ ys) (Permᴰ.cons e p) (h, t) = (
  subst (λ z. All (λ y. z.port ≢ y.port) ys) e (All-perm (λ y. x.port ≢ y.port) _ _ p h),
  IsDistinct-perm _ _ p t,
)
IsDistinct-perm (x ∷ y ∷ l) (x' ∷ y' ∷ _) (Permᴰ.swap e f) ((h, u), (v, t)) = (
  (
    subst (λ z. x'.port ≢ z.port) e (subst (λ z. z.port ≢ x.port) f (λ q. h (sym q))),
    subst (λ z. All (λ w. z.port ≢ w.port) l) f v,
  ),
  (subst (λ z. All (λ w. z.port ≢ w.port) l) e u, t),
)
IsDistinct-perm _ _ (Permᴰ.trans p q) h = IsDistinct-perm _ _ q (IsDistinct-perm _ _ p h)

insert-insert :
    (x y : PortResult) (l : List PortResult)
    → x.port ≢ y.port
    → insert_result x (insert_result y l) ≡ insert_result y (insert_result x l)
unfolding insert_result
insert-insert x y [] h = elim (Bool-cases (ltb y.port x.port)) [
  | inl e ↦ let f : ltb x.port y.port ≡ false = ground arith in rw (e, f) refl
  | inr e ↦ let f : ltb x.port y.port ≡ true = ground arith in rw (e, f) refl
]
insert-insert x y (z ∷ l) h = elim (Bool-cases (ltb z.port x.port)) [
  | inl e ↦ elim (Bool-cases (ltb z.port y.port)) [
    | inl f ↦ rw (e, f) (rw (e) (ap (λ r. z ∷ r) (insert-insert x y l h)))
    | inr f ↦ let g : ltb y.port x.port ≡ true = ground arith in rw (e, f) (rw (g) (rw (e) refl))
  ]
  | inr e ↦ elim (Bool-cases (ltb z.port y.port)) [
    | inl f ↦ let g : ltb x.port y.port ≡ true = ground arith in rw (e, f) (rw (e, g) refl)
    | inr f ↦ elim (Bool-cases (ltb y.port x.port)) [
      | inl g ↦
          let k : ltb x.port y.port ≡ false = ground arith in rw (e, f) (rw (g, k) (rw (e) refl))
      | inr g ↦ let k : ltb x.port y.port ≡ true = ground arith in rw (e, f) (rw (g, k) refl)
    ]
  ]
]

pub sort-perm : (a b : List PortResult) → Permᴰ a b → IsDistinct a → sort_results a ≡ sort_results b
unfolding sort_results
sort-perm _ _ Permᴰ.nil d = refl
sort-perm (x ∷ a) (y ∷ b) (Permᴰ.cons e p) (h, d) = cc (sort-perm a b p d, e)
sort-perm (x ∷ y ∷ l) (x' ∷ y' ∷ _) (Permᴰ.swap e f) ((h, u), d) =
    insert-insert x y (sort_results l) h ∙ cc (e, f)
sort-perm a b (Permᴰ.trans p q) d = sort-perm _ _ p d ∙ sort-perm _ _ q (IsDistinct-perm _ _ p d)

rising-distinct :
    (x : PortResult) (xs : List PortResult)
    → All (λ y. x.port < y.port) xs
    → All (λ y. x.port ≢ y.port) xs
rising-distinct x [] h = tt
rising-distinct x (y ∷ xs) (h, t) = (omega arith, rising-distinct x xs t)

pub IsRising-IsDistinct : (xs : List PortResult) → IsRising xs → IsDistinct xs
IsRising-IsDistinct [] h = tt
IsRising-IsDistinct (x ∷ xs) (h, t) = (rising-distinct x xs h, IsRising-IsDistinct xs t)

insert-least :
    (x : PortResult) (xs : List PortResult)
    → All (λ y. x.port < y.port) xs
    → insert_result x xs ≡ x ∷ xs
unfolding insert_result
insert-least x [] h = refl
insert-least x (y ∷ xs) (h, t) = let e : ltb y.port x.port ≡ false = ground arith in rw (e) refl

pub sort-IsRising : (xs : List PortResult) → IsRising xs → sort_results xs ≡ xs
unfolding sort_results
sort-IsRising [] h = refl
sort-IsRising (x ∷ xs) (h, t) = rw (sort-IsRising xs t) (insert-least x xs h)
