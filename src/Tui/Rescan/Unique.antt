-- ===== src/Tui/Rescan/Unique.antt =====
-- A rescan leaves at most one row for an address.
use ipscry.Common.{
  ℕ, ◌≡◌, refl, sym, ap, ◌∙◌, inl, inr, Bool, true, false, Option, none, some, List, [], ◌∷◌, ◌++◌,
  arith, if◌then◌else◌, Bool-cases, Option-cases, Bytes,
}
use ipscry.Common.Text.{codes, text_eq}
use ipscry.Hosts.{HostResult}
use ipscry.Tui.{ScanTui, has_host}
use ipscry.Tui.Reports.{find_host}
use ipscry.Tui.Distinct.{AreApart, has_host-append, append-IsDistinct}
use ipscry.Tui.Rescan.{by_ip, fresh_hosts, reconcile_rescan_hosts}
use ipscry.Tui.Rescan.Rows.{
  kept, lost, if-none, sort_rows_lem, IsDistinct, IsAnswer, by_ip-IsAnswer, find_host-none,
  has_host-none, find_host-kept, find_host-lost, find_host-fresh, by_ip-find_host,
}

module _ (found : Bytes → Option HostResult) (ans : IsAnswer found) where
  has_host-kept :
      (x : Bytes) (rows : List HostResult)
      → has_host x rows ≡ false
      → has_host x (kept found rows) ≡ false
  has_host-kept x rows e =
      has_host-none x (kept found rows) (find_host-kept found ans x rows ∙ rw (e) refl)

  has_host-lost :
      (x : Bytes) (rows : List HostResult)
      → has_host x rows ≡ false
      → has_host x (lost found rows) ≡ false
  has_host-lost x rows e = has_host-none x (lost found rows) (
      find_host-lost found ans x rows
      ∙ rw (find_host-none x rows e)
          (elim (Option-cases (found x)) [ inl a ↦ rw (a) refl | inr (g, a) ↦ rw (a) refl ]))

  kept-IsDistinct : (rows : List HostResult) → IsDistinct rows → IsDistinct (kept found rows)
  kept-IsDistinct [] d = tt
  kept-IsDistinct (old ∷ rows) (new, d) = elim (Option-cases (found old.ip)) [
    | inl e ↦ rw (e, kept) (kept-IsDistinct rows d)
    | inr (g, e) ↦
        rw (e, kept)
          (
            has_host-kept g.ip rows (ap (λ i. has_host i rows) (ans old.ip g e) ∙ new),
            kept-IsDistinct rows d,
          )
  ]

  lost-IsDistinct : (rows : List HostResult) → IsDistinct rows → IsDistinct (lost found rows)
  lost-IsDistinct [] d = tt
  lost-IsDistinct (old ∷ rows) (new, d) = elim (Option-cases (found old.ip)) [
    | inl e ↦ rw (e, lost) (has_host-lost old.ip rows new, lost-IsDistinct rows d)
    | inr (g, e) ↦ rw (e, lost) (lost-IsDistinct rows d)
  ]

  -- An address is among the rows found again where the scan has an answer, and among the lost
  -- ones where it has none.
  kept-none :
      (x : Bytes) (rows : List HostResult) → found x ≡ none → has_host x (kept found rows) ≡ false
  kept-none x rows e =
      has_host-none x (kept found rows)
        (find_host-kept found ans x rows ∙ if-none (has_host x rows) (found x) e ∙ e)

  lost-some :
      (x : Bytes) (rows : List HostResult) (g : HostResult)
      → found x ≡ some g
      → has_host x (lost found rows) ≡ false
  lost-some x rows g e =
      has_host-none x (lost found rows) (find_host-lost found ans x rows ∙ rw (e) refl)

  kept-lost-AreApart : (rows : List HostResult) → AreApart (kept found rows) (lost found rows)
  kept-lost-AreApart rows x s = elim (Option-cases (found x)) [
    | inl e ↦ let never = kept-none x rows e in ground arith
    | inr (g, e) ↦ lost-some x rows g e
  ]

fresh-IsDistinct :
    (seen : List HostResult) (w : Bool) (now : ℕ) (hosts : List HostResult) (d : List (Bytes × ℕ))
    → IsDistinct hosts
    → IsDistinct (fresh_hosts seen w now hosts d).0
unfolding fresh_hosts
fresh-IsDistinct seen w now [] d distinct = tt
fresh-IsDistinct seen w now (h ∷ hosts) d (new, distinct) = elim (Bool-cases (has_host h.ip seen)) [
  | inl e ↦ rw (e) (fresh-IsDistinct seen w now hosts _ distinct)
  | inr e ↦ rw (e) (
    has_host-none h.ip _
        (find_host-fresh h.ip seen w now hosts _ ∙ rw (e) (find_host-none h.ip hosts new)),
    fresh-IsDistinct seen w now hosts _ distinct,
  )
]

not_fresh :
    (hosts rows : List HostResult)
    → IsDistinct hosts
    → (x : Bytes) → has_host x (kept (by_ip hosts) rows ++ lost (by_ip hosts) rows) ≡ true
    → (if has_host x (kept (by_ip hosts) rows) then none else find_host x hosts) ≡ none
not_fresh hosts rows new x s = elim (Bool-cases (has_host x (kept (by_ip hosts) rows))) [
  | inl e ↦ rw (e) refl
  | inr e ↦ elim (Option-cases (by_ip hosts x)) [
    | inl b ↦ rw (e) (sym (by_ip-find_host hosts x new) ∙ b)
    | inr (g, b) ↦
        let l = lost-some (by_ip hosts) (by_ip-IsAnswer hosts) x rows g b in
        let parts = has_host-append x (kept (by_ip hosts) rows) (lost (by_ip hosts) rows) in
        ground (arith, e, l, parts, s)
  ]
]

pub reconcile-IsDistinct :
    (now : ℕ) (hosts : List HostResult) (t : ScanTui)
    → IsDistinct hosts
    → IsDistinct t.hosts
    → IsDistinct (reconcile_rescan_hosts now hosts t).hosts
unfolding reconcile_rescan_hosts
reconcile-IsDistinct now hosts t new old =
    let found = by_ip hosts in
    let ans = by_ip-IsAnswer hosts in
    let k = kept found t.hosts in
    let l = lost found t.hosts in
    let (next, dropped) =
      sort_rows_lem found t.watch_populated now t.hosts
        (record { next = []; dropped = []; changed_at = t.host_changed_at }) in
    let rows : IsDistinct (k ++ l) =
      append-IsDistinct k l (kept-IsDistinct found ans t.hosts old)
        (lost-IsDistinct found ans t.hosts old) (kept-lost-AreApart found ans t.hosts) in
    rw (next, dropped)
      (append-IsDistinct (k ++ l) _ rows
        (fresh-IsDistinct k (text_eq t.phase (codes "watch")) now hosts t.host_discovered_at new)
        (λ x s.
          has_host-none x _ (find_host-fresh x k _ now hosts _ ∙ not_fresh hosts t.hosts new x s)))
