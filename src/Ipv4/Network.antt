-- ===== src/Ipv4/Network.antt =====
-- Membership in a network, and the addresses that expandCIDR lists.
use ipscry.Common.{
  ℕ, zero, suc, ◌+◌, ◌-◌, ◌*◌, ◌/◌, ◌%◌, ◌^◌, ◌≤◌, ◌<◌, bit_and, ◌≡◌, refl, sym, ap, ◌∙◌, ◌≢◌, inl,
  inr, Bool, true, false, ◌&&◌, [], ◌∷◌, arith, ltb, ◌==◌, ltb→lt, ltb→le, ==_iff, Bool-cases,
  holds_below, holds_below_sound, agree_below,
}
use mathlib.Core.Path.{ap₂}
use ipscry.Ipv4.{cidr_mask, mask_ip, net_contains}
use ipscry.Ipv4.Value.{to_ip}

-- A byte under the mask that clears `j` low bits.
mask_table :
    holds_below 9
      (λ j. holds_below 256 (λ x. bit_and x (255 - 255 / 2 ^ (8 - j)) == x / 2 ^ j * 2 ^ j))
    ≡ true
unfolding holds_below
mask_table = refl

and_mask : (j x : ℕ) → j < 9 → x < 256 → bit_and x (255 - 255 / 2 ^ (8 - j)) ≡ x / 2 ^ j * 2 ^ j
and_mask j x hj hx =
    (==_iff _ _).0 (holds_below_sound 256 _ x (holds_below_sound 9 _ j mask_table hj) hx)

-- A statement about the nine bit positions in a byte, case by case.
pub for_nine :
    (P : ℕ → Type 0) → P 0 → P 1 → P 2 → P 3 → P 4 → P 5 → P 6 → P 7 → P 8 → (j : ℕ) → j < 9 → P j
for_nine P p0 p1 p2 p3 p4 p5 p6 p7 p8 zero h = p0
for_nine P p0 p1 p2 p3 p4 p5 p6 p7 p8 (suc zero) h = p1
for_nine P p0 p1 p2 p3 p4 p5 p6 p7 p8 (suc (suc zero)) h = p2
for_nine P p0 p1 p2 p3 p4 p5 p6 p7 p8 (suc (suc (suc zero))) h = p3
for_nine P p0 p1 p2 p3 p4 p5 p6 p7 p8 (suc (suc (suc (suc zero)))) h = p4
for_nine P p0 p1 p2 p3 p4 p5 p6 p7 p8 (suc (suc (suc (suc (suc zero))))) h = p5
for_nine P p0 p1 p2 p3 p4 p5 p6 p7 p8 (suc (suc (suc (suc (suc (suc zero)))))) h = p6
for_nine P p0 p1 p2 p3 p4 p5 p6 p7 p8 (suc (suc (suc (suc (suc (suc (suc zero))))))) h = p7
for_nine P p0 p1 p2 p3 p4 p5 p6 p7 p8 (suc (suc (suc (suc (suc (suc (suc (suc zero)))))))) h = p8
for_nine P p0 p1 p2 p3 p4 p5 p6 p7 p8 (suc (suc (suc (suc (suc (suc (suc (suc (suc k))))))))) h =
    absurd (omega arith)

-- Dropping `j` low bits drops them from the last byte.
abbrev Splits : ℕ → Type 0
Splits j =
    (u : ℕ)
    → (u / 2 ^ j ≡ u / 256 * 2 ^ (8 - j) + u % 256 / 2 ^ j)
      × (u % 256 / 2 ^ j < 2 ^ (8 - j))
      × (0 < 2 ^ j)

splits : (j : ℕ) → j < 9 → Splits j
splits =
    for_nine Splits (λ u. omega arith) (λ u. omega arith) (λ u. omega arith) (λ u. omega arith)
      (λ u. omega arith) (λ u. omega arith) (λ u. omega arith) (λ u. omega arith) (λ u. omega arith)

ne_digits : (x y q r m : ℕ) → q < m → r < m → x ≢ y → (x * m + q == y * m + r) ≡ false
ne_digits x y q r m hq hr ne = elim (Bool-cases (ltb x y)) [
  | inl l ↦
      let p : x < y = ltb→lt x y l in let step : (x + 1) * m ≤ y * m = grind arith in ground arith
  | inr g ↦
      let p : y ≤ x = ltb→le x y g in
      let below : y < x = omega arith in
      let step : (y + 1) * m ≤ x * m = grind arith in ground arith
]

-- Two digits agree exactly when the numbers that they make do.
eq_digits : (x y q r m : ℕ) → q < m → r < m → (x == y && q == r) ≡ (x * m + q == y * m + r)
eq_digits x y q r m hq hr = elim (Bool-cases (x == y)) [
  | inl same ↦ rw same (let e : x ≡ y = ground arith in rw e (ground arith))
  | inr other ↦ rw other (sym (ne_digits x y q r m hq hr (ground arith)))
]

eq_scaled : (x y m : ℕ) → 0 < m → (x * m == y * m) ≡ (x == y)
eq_scaled x y m h = elim (Bool-cases (x == y)) [
  | inl same ↦ rw same (let e : x ≡ y = ground arith in rw e (ground arith))
  | inr other ↦
      let ne : x ≢ y = ground arith in rw other (ground (arith, ne_digits x y 0 0 m h h ne))
]

-- Three bytes and a last digit below `r` agree exactly when the number that they make does.
pub eq_address :
    (a b c q a' b' c' q' r : ℕ)
    → b < 256
    → c < 256
    → q < r
    → b' < 256
    → c' < 256
    → q' < r
    → (a == a' && (b == b' && (c == c' && q == q')))
      ≡ (((a * 256 + b) * 256 + c) * r + q == ((a' * 256 + b') * 256 + c') * r + q')
eq_address a b c q a' b' c' q' r hb hc hq hb' hc' hq' =
    let p1 : (c + 1) * r ≤ 256 * r = grind arith in
    let p1' : (c' + 1) * r ≤ 256 * r = grind arith in
    let p2 : (b + 1) * (256 * r) ≤ 256 * (256 * r) = grind arith in
    let p2' : (b' + 1) * (256 * r) ≤ 256 * (256 * r) = grind arith in
    let u1 = c * r + q in
    let u1' = c' * r + q' in
    let u2 = b * (256 * r) + u1 in
    let u2' = b' * (256 * r) + u1' in
    ap (λ t. a == a' && (b == b' && t)) (eq_digits c c' q q' r hq hq')
    ∙ ap (λ t. a == a' && t) (eq_digits b b' u1 u1' (256 * r) (omega arith) (omega arith))
    ∙ eq_digits a a' u2 u2' (65536 * r) (omega arith) (omega arith)
    ∙ ap₂ ◌==◌ (omega arith) (omega arith)

-- The mask of a network of /24 or smaller, and of one of /16 to /24.
pub mask_small :
    (j : ℕ) → j < 9 → cidr_mask 4 (32 - j) ≡ 255 ∷ 255 ∷ 255 ∷ (255 - 255 / 2 ^ (8 - j)) ∷ []
unfolding cidr_mask
mask_small =
    for_nine (λ j. cidr_mask 4 (32 - j) ≡ 255 ∷ 255 ∷ 255 ∷ (255 - 255 / 2 ^ (8 - j)) ∷ []) refl
      refl refl refl refl refl refl refl refl

pub mask_large :
    (k : ℕ) → k < 9 → cidr_mask 4 (24 - k) ≡ 255 ∷ 255 ∷ (255 - 255 / 2 ^ (8 - k)) ∷ 0 ∷ []
unfolding cidr_mask
mask_large =
    for_nine (λ k. cidr_mask 4 (24 - k) ≡ 255 ∷ 255 ∷ (255 - 255 / 2 ^ (8 - k)) ∷ 0 ∷ []) refl refl
      refl refl refl refl refl refl refl

pub and_full : (x : ℕ) → x < 256 → bit_and x 255 ≡ x
and_full x h = omega (arith, and_mask 0 x (omega arith) h)

and_none : (x : ℕ) → x < 256 → bit_and x 0 ≡ 0
unfolding holds_below
and_none = agree_below 256 _ _ refl

pub and-true : (b : Bool) → (b && true) ≡ b
and-true true = refl
and-true false = refl

-- The three upper bytes of `u`, as a number.
upper :
    (u : ℕ)
    → u < 2 ^ 32
    → (u / 2 ^ 24 % 256 * 256 + u / 2 ^ 16 % 256) * 256 + u / 256 % 256 ≡ u / 256
upper u h = omega arith

-- In a network of /24 or smaller the address is decided by the bits above the last `j`.
contains_small :
    (j : ℕ)
    → j < 9
    → (u v : ℕ) → u < 2 ^ 32
    → v < 2 ^ 32
    → net_contains (to_ip u) (cidr_mask 4 (32 - j)) (to_ip v) ≡ (u / 2 ^ j == v / 2 ^ j)
unfolding net_contains
contains_small j h u v hu hv =
    let (su, bu, pos) = splits j h u in
    let (sv, bv, _) = splits j h v in
    rw
      (
        mask_small j h,
        and_full (u / 2 ^ 24 % 256) (omega arith),
        and_full (v / 2 ^ 24 % 256) (omega arith),
        and_full (u / 2 ^ 16 % 256) (omega arith),
        and_full (v / 2 ^ 16 % 256) (omega arith),
        and_full (u / 256 % 256) (omega arith),
        and_full (v / 256 % 256) (omega arith),
        and_mask j (u % 256) h (omega arith),
        and_mask j (v % 256) h (omega arith),
        eq_scaled (u % 256 / 2 ^ j) (v % 256 / 2 ^ j) (2 ^ j) pos,
        and-true (u % 256 / 2 ^ j == v % 256 / 2 ^ j),
        su,
        sv,
      )
      (eq_address (u / 2 ^ 24 % 256) (u / 2 ^ 16 % 256) (u / 256 % 256) (u % 256 / 2 ^ j)
          (v / 2 ^ 24 % 256) (v / 2 ^ 16 % 256) (v / 256 % 256) (v % 256 / 2 ^ j) (2 ^ (8 - j))
          (omega arith) (omega arith) bu (omega arith) (omega arith) bv
        ∙ ap₂ (λ x y. (x * 2 ^ (8 - j) + u % 256 / 2 ^ j == y * 2 ^ (8 - j) + v % 256 / 2 ^ j))
            (upper u hu) (upper v hv))

-- The number of the two upper bytes and the upper bits of the third.
upper_large : (k : ℕ) → k < 9 → (u : ℕ) → u / 2 ^ (8 + k) ≡ u / 256 / 2 ^ k
upper_large =
    for_nine (λ k. (u : ℕ) → u / 2 ^ (8 + k) ≡ u / 256 / 2 ^ k) (λ u. omega arith)
      (λ u. omega arith) (λ u. omega arith) (λ u. omega arith) (λ u. omega arith) (λ u. omega arith)
      (λ u. omega arith) (λ u. omega arith) (λ u. omega arith)

upper_two :
    (u : ℕ) → u < 2 ^ 32 → (0 * 256 + u / 2 ^ 24 % 256) * 256 + u / 2 ^ 16 % 256 ≡ u / 256 / 256
upper_two u h = omega arith

contains_large :
    (k : ℕ)
    → k < 9
    → (u v : ℕ) → u < 2 ^ 32
    → v < 2 ^ 32
    → net_contains (to_ip u) (cidr_mask 4 (24 - k)) (to_ip v) ≡ (u / 2 ^ (8 + k) == v / 2 ^ (8 + k))
unfolding net_contains
contains_large k h u v hu hv =
    let (su, bu, pos) = splits k h (u / 256) in
    let (sv, bv, _) = splits k h (v / 256) in
    rw
      (
        mask_large k h,
        and_full (u / 2 ^ 24 % 256) (omega arith),
        and_full (v / 2 ^ 24 % 256) (omega arith),
        and_full (u / 2 ^ 16 % 256) (omega arith),
        and_full (v / 2 ^ 16 % 256) (omega arith),
        and_mask k (u / 256 % 256) h (omega arith),
        and_mask k (v / 256 % 256) h (omega arith),
        and_none (u % 256) (omega arith),
        and_none (v % 256) (omega arith),
        eq_scaled (u / 256 % 256 / 2 ^ k) (v / 256 % 256 / 2 ^ k) (2 ^ k) pos,
        and-true (u / 256 % 256 / 2 ^ k == v / 256 % 256 / 2 ^ k),
        upper_large k h u,
        upper_large k h v,
        su,
        sv,
      )
      (eq_address 0 (u / 2 ^ 24 % 256) (u / 2 ^ 16 % 256) (u / 256 % 256 / 2 ^ k) 0
          (v / 2 ^ 24 % 256) (v / 2 ^ 16 % 256) (v / 256 % 256 / 2 ^ k) (2 ^ (8 - k)) (omega arith)
          (omega arith) bu (omega arith) (omega arith) bv
        ∙ ap₂
            (λ x y.
              (x * 2 ^ (8 - k) + u / 256 % 256 / 2 ^ k == y * 2 ^ (8 - k) + v / 256 % 256 / 2 ^ k))
            (upper_two u hu) (upper_two v hv))

contains_shifted :
    (j k : ℕ)
    → 8 + k ≡ j
    → k < 9
    → (u v : ℕ) → u < 2 ^ 32
    → v < 2 ^ 32
    → net_contains (to_ip u) (cidr_mask 4 (32 - j)) (to_ip v) ≡ (u / 2 ^ j == v / 2 ^ j)
contains_shifted j k e h u v hu hv =
    let m : 32 - (8 + k) ≡ 24 - k = omega arith in rw (← e, m) (contains_large k h u v hu hv)

-- `ipNet.Contains` of a network of /16 to /32: the two addresses agree above the host bits.
pub net_contains-to_ip :
    (j : ℕ)
    → j ≤ 16
    → (u v : ℕ) → u < 2 ^ 32
    → v < 2 ^ 32
    → net_contains (to_ip u) (cidr_mask 4 (32 - j)) (to_ip v) ≡ (u / 2 ^ j == v / 2 ^ j)
net_contains-to_ip j h u v hu hv = elim (Bool-cases (ltb j 9)) [
  | inl small ↦ contains_small j (ltb→lt _ _ small) u v hu hv
  | inr large ↦
      let low : 9 ≤ j = ltb→le _ _ large in
      contains_shifted j (j - 8) (omega arith) (omega arith) u v hu hv
]

-- Clearing the low bits clears them in the last byte, or in the last two.
abbrev pub Clears : ℕ → Type 0
Clears j =
    (u : ℕ)
    → (u / 2 ^ j * 2 ^ j / 256 ≡ u / 256)
      × (u / 2 ^ j * 2 ^ j % 256 ≡ u % 256 / 2 ^ j * 2 ^ j)
      × (u / 2 ^ (8 + j) * 2 ^ (8 + j) ≡ u / 256 / 2 ^ j * 2 ^ j * 256)

pub clears : (j : ℕ) → j < 9 → Clears j
clears =
    for_nine Clears (λ u. omega arith) (λ u. omega arith) (λ u. omega arith) (λ u. omega arith)
      (λ u. omega arith) (λ u. omega arith) (λ u. omega arith) (λ u. omega arith) (λ u. omega arith)

mask_ip_small :
    (j : ℕ) → j < 9 → (u : ℕ) → mask_ip (to_ip u) (cidr_mask 4 (32 - j)) ≡ to_ip (u / 2 ^ j * 2 ^ j)
unfolding mask_ip
mask_ip_small j h u =
    let (hi, lo, _) = clears j h u in
    rw
      (
        mask_small j h,
        and_full (u / 2 ^ 24 % 256) (omega arith),
        and_full (u / 2 ^ 16 % 256) (omega arith),
        and_full (u / 256 % 256) (omega arith),
        and_mask j (u % 256) h (omega arith),
      )
      (ground (arith, hi, lo))

mask_ip_large :
    (j k : ℕ)
    → 8 + k ≡ j
    → k < 9
    → (u : ℕ) → mask_ip (to_ip u) (cidr_mask 4 (32 - j)) ≡ to_ip (u / 2 ^ j * 2 ^ j)
unfolding mask_ip
mask_ip_large j k e h u =
    let m : 32 - (8 + k) ≡ 24 - k = omega arith in
    let (hi, lo, _) = clears k h (u / 256) in
    let (_, _, both) = clears k h u in
    rw
      (
        ← e,
        m,
        mask_large k h,
        both,
        and_full (u / 2 ^ 24 % 256) (omega arith),
        and_full (u / 2 ^ 16 % 256) (omega arith),
        and_mask k (u / 256 % 256) h (omega arith),
        and_none (u % 256) (omega arith),
      )
      (ground (arith, hi, lo))

-- The network's own address has no host bits.
pub mask_ip-to_ip :
    (j : ℕ)
    → j ≤ 16
    → (u : ℕ) → mask_ip (to_ip u) (cidr_mask 4 (32 - j)) ≡ to_ip (u / 2 ^ j * 2 ^ j)
mask_ip-to_ip j h u = elim (Bool-cases (ltb j 9)) [
  | inl small ↦ mask_ip_small j (ltb→lt _ _ small) u
  | inr large ↦
      let low : 9 ≤ j = ltb→le _ _ large in mask_ip_large j (j - 8) (omega arith) (omega arith) u
]
