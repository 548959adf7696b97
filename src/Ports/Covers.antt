-- ===== src/Ports/Covers.antt =====
-- Which ports parsePorts returns, and when it refuses.
use ipscry.Common.{
  ℕ, zero, suc, ◌+◌, ◌-◌, ◌≡◌, refl, sym, ap, ◌∙◌, ◌⊎◌, inl, inr, Bool, true, false, ◌&&◌, ◌||◌,
  Option, none, some, List, [], ◌∷◌, arith, ltb, leb, ◌==◌, Bool-cases, Option-cases, length, Bytes,
}
use ipscry.Common.Text.{codes, text_eq, split}
use ipscry.Common.Trim.{trim_space}
use ipscry.Ports.{
  PortsError, no_port, PortPart, blank, bad, span, one, PortsResult, ok, err, has, add, add_range,
  sort_ints, read_part, add_part, add_parts, port_profile, finish_ports, parse_ports,
}
use ipscry.Ports.Valid.{has-append, has-sort, IsSound, read_part-IsSound}

-- A part lists a port.
abbrev pub covers : PortPart → ℕ → Bool
covers blank p = false
covers (bad e) p = false
covers (span a b) p = leb a p && leb p b
covers (one q) p = q == p

abbrev pub any_covers : List Bytes → ℕ → Bool
any_covers [] p = false
any_covers (raw ∷ parts) p = covers (read_part raw) p || any_covers parts p

-- The error of the first part that has one
abbrev pub or_error : PortPart → Option PortsError → Option PortsError
or_error (bad e) later = some e
or_error blank later = later
or_error (span a b) later = later
or_error (one p) later = later

abbrev pub first_error : List Bytes → Option PortsError
first_error [] = none
first_error (raw ∷ parts) = or_error (read_part raw) (first_error parts)

-- What the parts ask for.
abbrev pub IsAnswer : Option PortsError → (ℕ → Bool) → PortsResult → Type 0
IsAnswer (some e) listed r = r ≡ err e
IsAnswer none listed r =
    ((r ≡ err no_port) × ((p : ℕ) → listed p ≡ false))
    ⊎ ((ports : List ℕ) × ((r ≡ ok ports) × ((p : ℕ) → has p ports ≡ listed p)))

has-add : (p q : ℕ) (ports : List ℕ) → has p (add q ports) ≡ (has p ports || q == p)
unfolding add has
has-add p q ports = elim (Bool-cases (has q ports)) [
  | inl e ↦ rw (e) (elim (Bool-cases (q == p)) [
    | inl s ↦
        let same : q ≡ p = ground arith in
        let there : has p ports ≡ true = ap (λ i. has i ports) (sym same) ∙ e in ground arith
    | inr ne ↦ ground arith
  ])
  | inr e ↦ rw (e) (has-append p ports (q ∷ []) ∙ ground arith)
]

has-add_range :
    (p rounds q : ℕ) (ports : List ℕ)
    → has p (add_range rounds q ports) ≡ (has p ports || (leb q p && ltb p (q + rounds)))
unfolding add_range
has-add_range p zero q ports = ground arith
has-add_range p (suc n) q ports =
    has-add_range p n (q + 1) (add q ports) ∙ rw (has-add p q ports) (ground arith)

-- The list after a part that has no error
abbrev Adds : (ℕ → Bool) → List ℕ → PortsResult → Type 0
Adds listed ports r =
    (more : List ℕ) × ((r ≡ ok more) × ((p : ℕ) → has p more ≡ (has p ports || listed p)))

add_part-Adds :
    (q : PortPart) (later : Option PortsError) (ports : List ℕ)
    → IsSound q
    → or_error q later ≡ none
    → (later ≡ none) × Adds (covers q) ports (add_part q ports)
unfolding add_part
add_part-Adds blank later ports h e = (e, (ports, (refl, λ p. ground arith)))
add_part-Adds (bad x) later ports h e = ground arith
add_part-Adds (span a b) later ports (lo, le, hi) e = (
  e,
  (add_range (b + 1 - a) a ports, (refl, λ p. has-add_range p (b + 1 - a) a ports ∙ ground arith)),
)
add_part-Adds (one q) later ports h e = (e, (add q ports, (refl, λ p. has-add p q ports)))

add_parts-Adds :
    (parts : List Bytes) (ports : List ℕ)
    → first_error parts ≡ none
    → Adds (any_covers parts) ports (add_parts parts ports)
unfolding add_parts
add_parts-Adds [] ports e = (ports, (refl, λ p. ground arith))
add_parts-Adds (raw ∷ parts) ports e =
    let (e2, (more, (same, says))) =
      add_part-Adds (read_part raw) (first_error parts) ports (read_part-IsSound raw) e in
    let (final, (same2, says2)) = add_parts-Adds parts more e2 in
    rw (same, add_parts) (final, (same2, λ p. says2 p ∙ rw (says p) (ground arith)))

-- One part with an error, or an error behind a part without one
add_part-error :
    (q : PortPart) (later : Option PortsError) (ports : List ℕ) (x : PortsError)
    → or_error q later ≡ some x
    → (add_part q ports ≡ err x)
      ⊎ ((later ≡ some x) × ((more : List ℕ) × (add_part q ports ≡ ok more)))
unfolding add_part
add_part-error blank later ports x e = inr (e, (ports, refl))
add_part-error (bad y) later ports x e = inl (ground arith)
add_part-error (span a b) later ports x e = inr (e, (add_range (b + 1 - a) a ports, refl))
add_part-error (one q) later ports x e = inr (e, (add q ports, refl))

add_parts-error :
    (parts : List Bytes) (ports : List ℕ) (x : PortsError)
    → first_error parts ≡ some x
    → add_parts parts ports ≡ err x
unfolding add_parts
add_parts-error [] ports x e = ground arith
add_parts-error (raw ∷ parts) ports x e =
    elim (add_part-error (read_part raw) (first_error parts) ports x e) [
      | inl here ↦ rw (here, add_parts) refl
      | inr (later, (more, same)) ↦ rw (same, add_parts) (add_parts-error parts more x later)
    ]

finish_none :
    (ports : List ℕ) (listed : ℕ → Bool)
    → ((p : ℕ) → has p ports ≡ listed p)
    → IsAnswer none listed (finish_ports (ok ports))
unfolding finish_ports has
finish_none [] listed h = inl (refl, λ p. sym (h p))
finish_none (x ∷ ports) listed h =
    inr (sort_ints (x ∷ ports), (refl, λ p. has-sort p (x ∷ ports) ∙ h p))

finish-IsAnswer :
    (parts : List Bytes)
    → IsAnswer (first_error parts) (any_covers parts) (finish_ports (add_parts parts []))
unfolding finish_ports has
finish-IsAnswer parts = elim (Option-cases (first_error parts)) [
  | inl e ↦
      let (more, (same, says)) = add_parts-Adds parts [] e in
      rw (e, same) (finish_none more (any_covers parts) says)
  | inr (x, e) ↦ rw (e, add_parts-error parts [] x e) refl
]

-- An input that is a list answers with the error of its first bad part, or that no port was given if it
-- lists none, or with exactly the ports that some part lists.
pub parse_ports-IsAnswer :
    (lower : Bytes → Bytes) (defaults : List ℕ) (raw : Bytes)
    → (length (trim_space raw) == 0 || text_eq (lower (trim_space raw)) (codes "common")) ≡ false
    → port_profile (lower (trim_space raw)) ≡ none
    → IsAnswer
        (first_error (split b',' (trim_space raw)))
        (any_covers (split b',' (trim_space raw)))
        (parse_ports lower defaults raw)
unfolding parse_ports
parse_ports-IsAnswer lower defaults raw e n =
    rw (e, n, parse_ports) (finish-IsAnswer (split b',' (trim_space raw)))
