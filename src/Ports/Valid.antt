-- ===== src/Ports/Valid.antt =====
-- What the ports that parsePorts returns are like.
use ipscry.Common.{
  ℕ, zero, suc, ◌+◌, ◌-◌, ◌≤◌, ◌<◌, ◌≡◌, refl, ap, ◌∙◌, ◌⊎◌, inl, inr, false, ◌||◌, Option, none,
  some, List, [], ◌∷◌, ◌++◌, arith, ltb, ◌==◌, ltb→lt, Bool-cases, Option-cases, length, All,
  All-append, Bytes,
}
use ipscry.Common.Text.{codes, text_eq, split, cut}
use ipscry.Common.Trim.{trim_space}
use ipscry.Common.Int.{ℤ, pos, negsuc}
use mathlib.Core.Path.{subst}
use ipscry.Common.Atoi.{atoi}
use ipscry.Ports.{
  PortsError, PortPart, blank, bad, span, one, PortsResult, ok, err, has, add, add_range,
  insert_port, sort_ints, check_range, check_port, read_part, add_part, add_parts, port_profile,
  finish_ports, parse_ports,
}

abbrev pub IsPort : ℕ → Type 0
IsPort p = (1 ≤ p) × (p ≤ 65535)

abbrev pub IsAscending : List ℕ → Type 0
IsAscending [] = Unit
IsAscending (x ∷ xs) = All (λ y. x < y) xs × IsAscending xs

-- The list that `--ports` stands for
abbrev pub ArePorts : List ℕ → Type 0
ArePorts ports = All IsPort ports × IsAscending ports

-- Each number once, in any order
abbrev pub IsNodup : List ℕ → Type 0
IsNodup [] = Unit
IsNodup (x ∷ xs) = (has x xs ≡ false) × IsNodup xs

pub has-append : (p : ℕ) (a b : List ℕ) → has p (a ++ b) ≡ (has p a || has p b)
unfolding has
has-append p [] b = refl
has-append p (x ∷ a) b = ground (arith, has-append p a b)

snoc-IsNodup : (xs : List ℕ) (p : ℕ) → IsNodup xs → has p xs ≡ false → IsNodup (xs ++ p ∷ [])
unfolding has
snoc-IsNodup [] p d e = (refl, tt)
snoc-IsNodup (x ∷ xs) p (new, d) e =
    let other : (x == p) ≡ false = ground arith in
    (has-append x xs (p ∷ []) ∙ rw (new) (ground arith), snoc-IsNodup xs p d (ground arith))

module _ (P : ℕ → Type 0) where
  All-insert : (x : ℕ) (xs : List ℕ) → P x → All P xs → All P (insert_port x xs)
  unfolding insert_port
  All-insert x [] h t = (h, tt)
  All-insert x (y ∷ ys) h (k, t) = elim (Bool-cases (ltb y x)) [
    | inl e ↦ rw (e) (k, All-insert x ys h t)
    | inr e ↦ rw (e) (h, (k, t))
  ]

  pub All-sort : (xs : List ℕ) → All P xs → All P (sort_ints xs)
  unfolding sort_ints
  All-sort [] h = tt
  All-sort (x ∷ xs) (h, t) = All-insert x (sort_ints xs) h (All-sort xs t)

All-below : (x y : ℕ) (xs : List ℕ) → x < y → All (λ z. y < z) xs → All (λ z. x < z) xs
All-below x y [] h t = tt
All-below x y (z ∷ xs) h (k, t) = (omega arith, All-below x y xs h t)

insert-IsAscending :
    (x : ℕ) (xs : List ℕ) → has x xs ≡ false → IsAscending xs → IsAscending (insert_port x xs)
unfolding insert_port has
insert-IsAscending x [] e s = (tt, tt)
insert-IsAscending x (y ∷ ys) e (low, s) = elim (Bool-cases (ltb y x)) [
  | inl t ↦
      rw (t)
        (All-insert (λ z. y < z) x ys (ltb→lt _ _ t) low, insert-IsAscending x ys (ground arith) s)
  | inr t ↦ let less : x < y = ground arith in rw (t) ((less, All-below x y ys less low), (low, s))
]

pub has-insert : (p x : ℕ) (xs : List ℕ) → has p (insert_port x xs) ≡ (x == p || has p xs)
unfolding insert_port has
has-insert p x [] = refl
has-insert p x (y ∷ ys) = ground (arith, has-insert p x ys)

pub has-sort : (p : ℕ) (xs : List ℕ) → has p (sort_ints xs) ≡ has p xs
unfolding sort_ints has
has-sort p [] = refl
has-sort p (x ∷ xs) = has-insert p x (sort_ints xs) ∙ ap (λ b. x == p || b) (has-sort p xs)

pub sort-IsAscending : (xs : List ℕ) → IsNodup xs → IsAscending (sort_ints xs)
unfolding sort_ints
sort-IsAscending [] d = tt
sort-IsAscending (x ∷ xs) (new, d) =
    insert-IsAscending x (sort_ints xs) (has-sort x xs ∙ new) (sort-IsAscending xs d)

-- What the loop over the parts keeps.
abbrev pub AreNew : List ℕ → Type 0
AreNew ports = All IsPort ports × IsNodup ports

add-AreNew : (p : ℕ) (ports : List ℕ) → IsPort p → AreNew ports → AreNew (add p ports)
unfolding add
add-AreNew p ports h (a, d) = elim (Bool-cases (has p ports)) [
  | inl e ↦ rw (e) (a, d)
  | inr e ↦ rw (e) (All-append IsPort ports (p ∷ []) a (h, tt), snoc-IsNodup ports p d e)
]

add_range-AreNew :
    (rounds p : ℕ) (ports : List ℕ)
    → 1 ≤ p
    → p + rounds ≤ 65536
    → AreNew ports
    → AreNew (add_range rounds p ports)
unfolding add_range
add_range-AreNew zero p ports lo hi v = v
add_range-AreNew (suc n) p ports lo hi v =
    add_range-AreNew n (p + 1) (add p ports) (omega arith) (omega arith)
      (add-AreNew p ports (lo, omega arith) v)

-- The numbers of a part are port numbers.
abbrev pub IsSound : PortPart → Type 0
IsSound blank = Unit
IsSound (bad e) = Unit
IsSound (span a b) = (1 ≤ a) × (a ≤ b) × (b ≤ 65535)
IsSound (one p) = IsPort p

check_range-IsSound : (part : Bytes) (a b : Option ℤ) → IsSound (check_range part a b)
unfolding check_range
check_range-IsSound part (some (pos a)) (some (pos b)) =
    elim (Bool-cases (a == 0 || (ltb 65535 b || ltb b a))) [
      | inl e ↦ rw (e) tt
      | inr e ↦ rw (e) (ground arith)
    ]
check_range-IsSound part (some (pos a)) (some (negsuc b)) = tt
check_range-IsSound part (some (pos a)) none = tt
check_range-IsSound part (some (negsuc a)) b = tt
check_range-IsSound part none b = tt

check_port-IsSound : (part : Bytes) (a : Option ℤ) → IsSound (check_port part a)
unfolding check_port
check_port-IsSound part (some (pos a)) = elim (Bool-cases (a == 0 || ltb 65535 a)) [
  | inl e ↦ rw (e) tt
  | inr e ↦ rw (e) (ground arith)
]
check_port-IsSound part (some (negsuc a)) = tt
check_port-IsSound part none = tt

pub read_part-IsSound : (raw : Bytes) → IsSound (read_part raw)
unfolding read_part
read_part-IsSound raw = elim (Bool-cases (length (trim_space raw) == 0)) [
  | inl e ↦ rw (e) tt
  | inr e ↦ elim (Option-cases (cut b'-' (trim_space raw))) [
    | inl c ↦ rw (e, c, read_part) (check_port-IsSound (trim_space raw) (atoi (trim_space raw)))
    | inr ((lo, hi), c) ↦
        rw (e, c, read_part)
          (check_range-IsSound (trim_space raw) (atoi (trim_space lo)) (atoi (trim_space hi)))
  ]
]

-- A result whose ports have the property, or an error
abbrev pub Gives : (List ℕ → Type 0) → PortsResult → Type 0
Gives P (ok ports) = P ports
Gives P (err e) = Unit

add_part-AreNew :
    (q : PortPart) (ports : List ℕ) → IsSound q → AreNew ports → Gives AreNew (add_part q ports)
unfolding add_part
add_part-AreNew blank ports h v = v
add_part-AreNew (bad e) ports h v = tt
add_part-AreNew (span a b) ports (lo, le, hi) v =
    add_range-AreNew (b + 1 - a) a ports lo (omega arith) v
add_part-AreNew (one p) ports h v = add-AreNew p ports h v

PortsResult-cases :
    (r : PortsResult) → ((e : PortsError) × (r ≡ err e)) ⊎ ((ports : List ℕ) × (r ≡ ok ports))
PortsResult-cases (err e) = inl (e, refl)
PortsResult-cases (ok ports) = inr (ports, refl)

pub add_parts-AreNew :
    (parts : List Bytes) (ports : List ℕ) → AreNew ports → Gives AreNew (add_parts parts ports)
unfolding add_parts
add_parts-AreNew [] ports v = v
add_parts-AreNew (raw ∷ parts) ports v =
    let here = add_part-AreNew (read_part raw) ports (read_part-IsSound raw) v in
    elim (PortsResult-cases (add_part (read_part raw) ports)) [
      | inl (e, same) ↦ rw (same, add_parts) tt
      | inr (more, same) ↦
          rw (same, add_parts) (add_parts-AreNew parts more (subst (Gives AreNew) same here))
    ]

finish-ArePorts : (r : PortsResult) → Gives AreNew r → Gives ArePorts (finish_ports r)
unfolding finish_ports
finish-ArePorts (err e) h = tt
finish-ArePorts (ok []) h = tt
finish-ArePorts (ok (p ∷ ports)) (a, d) =
    (All-sort IsPort (p ∷ ports) a, sort-IsAscending (p ∷ ports) d)

-- A list that is given has the property.
abbrev IfSome : (List ℕ → Type 0) → Option (List ℕ) → Type 0
IfSome P none = Unit
IfSome P (some ports) = P ports

profile-AreNew : (name : Bytes) → IfSome AreNew (port_profile name)
unfolding port_profile has
profile-AreNew name = elim (Bool-cases (text_eq name (codes "web"))) [
  | inl w ↦ rw (w) (omega arith, (refl, (refl, (refl, (refl, (refl, (refl, (refl, tt))))))))
  | inr w ↦ elim (Bool-cases (text_eq name (codes "windows"))) [
    | inl v ↦ rw (w, v) (omega arith, (refl, (refl, (refl, (refl, (refl, (refl, (refl, tt))))))))
    | inr v ↦ elim (Bool-cases (text_eq name (codes "db"))) [
      | inl u ↦ rw (w, v, u) (omega arith, (refl, (refl, (refl, tt))))
      | inr u ↦ rw (w, v, u) tt
    ]
  ]
]

-- Whatever the input, the ports that parsePorts returns are port numbers, in ascending order and each
-- once, if those of the embedded data are.
pub parse_ports-ArePorts :
    (lower : Bytes → Bytes) (defaults : List ℕ) (raw : Bytes)
    → ArePorts defaults
    → Gives ArePorts (parse_ports lower defaults raw)
unfolding parse_ports
parse_ports-ArePorts lower defaults raw d =
    let input = trim_space raw in
    elim (Bool-cases (length input == 0 || text_eq (lower input) (codes "common"))) [
      | inl e ↦ rw (e) d
      | inr e ↦ elim (Option-cases (port_profile (lower input))) [
        | inl n ↦
            rw (e, n, parse_ports)
              (finish-ArePorts (add_parts (split b',' input) [])
                (add_parts-AreNew (split b',' input) [] (tt, tt)))
        | inr (ports, n) ↦
            let (a, u) = subst (IfSome AreNew) n (profile-AreNew (lower input)) in
            rw (e, n, parse_ports) (All-sort IsPort ports a, sort-IsAscending ports u)
      ]
    ]
