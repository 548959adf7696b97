-- ===== src/Tui/Refresh.antt =====
-- The second look at web pages, HTTPRefresh of tui.go: what it leaves alone.
use ipscry.Common.{
  ℕ, ◌≡◌, refl, sym, ap, ◌∙◌, ◌⊎◌, inl, inr, true, false, not, ◌&&◌, some, List, [], ◌∷◌, arith,
  ◌==◌, Bool-cases, Bytes,
}
use ipscry.Common.Text.{text_eq}
use ipscry.Hosts.{PortResult, HostResult, is_empty}
use ipscry.Tui.{ScanTui, update_host}
use mathlib.Core.Option
use ipscry.Tui.Reports.{refresh_port, refresh_ports, http_refresh, find_host}

-- A port as it was, or one that had no HTTP response and has one now.
abbrev pub IsKeptPort : PortResult → PortResult → Type 0
IsKeptPort p q =
    (q ≡ p)
    ⊎ ((is_empty p.http_status ≡ true) × (is_empty q.http_status ≡ false) × (q.port ≡ p.port))

-- The ports one by one.
abbrev pub AreKept : List PortResult → List PortResult → Type 0
AreKept [] [] = Unit
AreKept (p ∷ ps) (q ∷ qs) = IsKeptPort p q × AreKept ps qs
AreKept _ _ = ⊥

IsKeptPort-trans : (p q r : PortResult) → IsKeptPort p q → IsKeptPort q r → IsKeptPort p r
IsKeptPort-trans p q r (inl a) (inl b) = inl (b ∙ a)
IsKeptPort-trans p q r (inl a) (inr (b, c, e)) =
    inr (ap (λ x. is_empty x.http_status) (sym a) ∙ b, c, e ∙ ap (λ x. x.port) a)
IsKeptPort-trans p q r (inr (a, b, c)) (inl e) =
    inr (a, ap (λ x. is_empty x.http_status) e ∙ b, ap (λ x. x.port) e ∙ c)
IsKeptPort-trans p q r (inr (a, b, c)) (inr (e, f, g)) = inr (a, f, g ∙ c)

AreKept-trans : (ps qs rs : List PortResult) → AreKept ps qs → AreKept qs rs → AreKept ps rs
AreKept-trans [] [] [] a b = tt
AreKept-trans (p ∷ ps) (q ∷ qs) (r ∷ rs) (a, u) (b, v) =
    (IsKeptPort-trans p q r a b, AreKept-trans ps qs rs u v)
AreKept-trans [] [] (r ∷ rs) a b = absurd b
AreKept-trans [] (q ∷ qs) rs a b = absurd a
AreKept-trans (p ∷ ps) [] rs a b = absurd a
AreKept-trans (p ∷ ps) (q ∷ qs) [] a b = absurd b

AreKept-refl : (ps : List PortResult) → AreKept ps ps
AreKept-refl [] = tt
AreKept-refl (p ∷ ps) = (inl refl, AreKept-refl ps)

refresh_port-AreKept :
    (np : PortResult) (ports : List PortResult) → AreKept ports (refresh_port np ports).0
unfolding refresh_port
refresh_port-AreKept np [] = tt
refresh_port-AreKept np (p ∷ ports) = elim (Bool-cases (p.port == np.port)) [
  | inr other ↦ rw (other) (inl refl, refresh_port-AreKept np ports)
  | inl same ↦ elim (Bool-cases (is_empty p.http_status && not (is_empty np.http_status))) [
    | inr keep ↦ rw (same, keep) (inl refl, AreKept-refl ports)
    | inl fill ↦
        rw (same, fill)
          (
            inr (ground (arith, fill), ground (arith, fill), ground (arith, same)),
            AreKept-refl ports,
          )
  ]
]

refresh_ports-AreKept :
    (updated ports : List PortResult) → AreKept ports (refresh_ports updated ports).0
unfolding refresh_ports
refresh_ports-AreKept [] ports = AreKept-refl ports
refresh_ports-AreKept (np ∷ updated) ports =
    AreKept-trans ports (refresh_port np ports).0 _ (refresh_port-AreKept np ports)
      (refresh_ports-AreKept updated (refresh_port np ports).0)

abbrev with_ports : List PortResult → HostResult → HostResult
with_ports ports h = record h { open_ports = ports }

-- Other ports on the first row of an address.
find_host-ports :
    (ip : Bytes) (ports : List PortResult) (hosts : List HostResult) (h : HostResult)
    → find_host ip hosts ≡ some h
    → find_host ip (update_host ip (with_ports ports) hosts) ≡ some (with_ports ports h)
unfolding find_host update_host
find_host-ports ip ports [] h e = ground arith
find_host-ports ip ports (x ∷ hosts) h e = elim (Bool-cases (text_eq x.ip ip)) [
  | inl eq ↦
      let same : some x ≡ some h = sym (rw (eq) refl) ∙ e in
      rw (eq) (rw (eq) (ap (Option.map (with_ports ports)) same))
  | inr ne ↦
      let more : find_host ip hosts ≡ some h = sym (rw (ne) refl) ∙ e in
      rw (ne) (rw (ne) (find_host-ports ip ports hosts h more))
]

-- A refresh of an address that the table has keeps the number and the order of its ports, and
-- changes only ports that had no HTTP response, to ports with the same number that have one.
pub http_refresh-AreKept :
    (now : ℕ) (updated h : HostResult) (t : ScanTui)
    → find_host updated.ip t.hosts ≡ some h
    → (g : HostResult) × ((find_host updated.ip (http_refresh now updated t).hosts ≡ some g)
        × AreKept h.open_ports g.open_ports)
unfolding http_refresh
http_refresh-AreKept now updated h t e =
    let ports = (refresh_ports updated.open_ports h.open_ports).0 in
    rw (e, http_refresh)
      (
        record h { open_ports = ports },
        (
          find_host-ports updated.ip ports t.hosts h e,
          refresh_ports-AreKept updated.open_ports h.open_ports,
        ),
      )
