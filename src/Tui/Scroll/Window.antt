-- ===== src/Tui/Scroll/Window.antt =====
-- Windows on a list: the elements at a place, as many as a page has, and how two windows lie to each other.
use ipscry.Common.{
  ℕ, zero, suc, ◌+◌, ◌-◌, ◌≤◌, ◌<◌, min, ◌≡◌, refl, sym, ap, ◌∙◌, List, [], ◌∷◌, ◌++◌, append_assoc,
  arith, length, take, drop, take-append-drop, drop-drop, take-all, length-take, length-drop,
}

module _ {ℓ} {A : Type ℓ} where
  abbrev pub window : ℕ → ℕ → List A → List A
  window page off xs = take page (drop off xs)

  -- The second one follows the first: no element between them, and none in both.
  abbrev pub Precedes : List A → List A → List A → Type ℓ
  Precedes xs a b = (front : List A) × (back : List A) × (xs ≡ front ++ (a ++ (b ++ back)))

  -- The second one is an element further.
  abbrev pub Slides : List A → List A → List A → Type ℓ
  Slides xs a b =
      (front : List A) × (x : A) × (middle : List A) × (y : A) × (back : List A) × (a ≡ x ∷ middle)
      × (b ≡ middle ++ y ∷ [])
      × (xs ≡ front ++ (x ∷ (middle ++ (y ∷ back))))

  abbrev pub Begins : List A → List A → Type ℓ
  Begins xs a = (back : List A) × (xs ≡ a ++ back)

  abbrev pub EndsWith : List A → List A → Type ℓ
  EndsWith xs a = (front : List A) × (xs ≡ front ++ a)

  pub length-window :
      (page off : ℕ) (xs : List A)
      → off ≤ length xs - page
      → length (window page off xs) ≡ min page (length xs)
  length-window page off xs h = omega (arith, length-take page (drop off xs), length-drop off xs)

  pub window-Precedes :
      (page off : ℕ) (xs : List A) → Precedes xs (window page off xs) (window page (off + page) xs)
  window-Precedes page off xs =
      let rest = drop off xs in
      (
        take off xs,
        drop page (drop page rest),
        sym (take-append-drop off xs)
            ∙ ap (λ r. take off xs ++ r)
                (sym (take-append-drop page rest)
                  ∙ ap (λ r. take page rest ++ r)
                      (sym (take-append-drop page (drop page rest))
                        ∙ ap (λ r. take page r ++ drop page (drop page rest))
                            (drop-drop page off xs))),
      )

  pub window-Begins : (page : ℕ) (xs : List A) → Begins xs (window page 0 xs)
  window-Begins page xs = (drop page xs, sym (take-append-drop page xs))

  pub window-EndsWith : (page : ℕ) (xs : List A) → EndsWith xs (window page (length xs - page) xs)
  window-EndsWith page xs =
      let off = length xs - page in
      (
        take off xs,
        sym (take-append-drop off xs)
            ∙ ap (λ r. take off xs ++ r)
                (sym (take-all page (drop off xs) (omega (arith, length-drop off xs)))),
      )

  -- One element more
  take-one :
      (n : ℕ) (xs : List A)
      → n < length xs
      → (y : A) × (back : List A) × (drop n xs ≡ y ∷ back) × (take (suc n) xs ≡ take n xs ++ y ∷ [])
  take-one n [] h = absurd (omega arith)
  take-one zero (x ∷ xs) h = (x, xs, refl, refl)
  take-one (suc n) (x ∷ xs) h =
      let (y, back, d, e) = take-one n xs (omega arith) in (y, back, d, ap (◌∷◌ x) e)

  start-Slides :
      (n : ℕ) (xs : List A)
      → suc n < length xs
      → Slides xs (window (suc n) 0 xs) (window (suc n) 1 xs)
  start-Slides n [] h = absurd (omega arith)
  start-Slides n (x ∷ xs) h =
      let (y, back, d, e) = take-one n xs (omega arith) in
      (
        [],
        x,
        take n xs,
        y,
        back,
        refl,
        e,
        ap (◌∷◌ x) (sym (take-append-drop n xs) ∙ ap (λ r. take n xs ++ r) d),
      )

  pub window-Slides :
      (page off : ℕ) (xs : List A)
      → 0 < page
      → off + page < length xs
      → Slides xs (window page off xs) (window page (off + 1) xs)
  window-Slides zero off xs p h = absurd (omega arith)
  window-Slides (suc n) off xs p h =
      let (front, x, middle, y, back, a, b, e) =
        start-Slides n (drop off xs) (omega (arith, length-drop off xs)) in
      (
        take off xs ++ front,
        x,
        middle,
        y,
        back,
        a,
        ap (take (suc n)) (sym (drop-drop 1 off xs)) ∙ b,
        sym (take-append-drop off xs)
            ∙ ap (λ r. take off xs ++ r) e
            ∙ sym (append_assoc (take off xs) front (x ∷ (middle ++ (y ∷ back)))),
      )
