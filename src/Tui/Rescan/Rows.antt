-- ===== src/Tui/Rescan/Rows.antt =====
-- The rows that a rescan leaves, found by their addresses.
use ipscry.Common.{
  ℕ, ◌≡◌, refl, sym, ap, ◌∙◌, inl, inr, Bool, true, false, Option, none, some, List, [], ◌∷◌, ◌++◌,
  append-nil, append_assoc, arith, if◌then◌else◌, Bool-cases, Option-cases, Bytes,
}
use ipscry.Common.Text.{codes, text_eq, text_eq_iff}
use ipscry.Hosts.{HostResult}
use mathlib.Core.Option
use ipscry.Tui.{ScanTui, has_host}
use ipscry.Tui.Reports.{find_host}
use ipscry.Tui.Rescan.{
  Sorted, by_ip, dead, sort_row, sort_rows, fresh_hosts, reconcile_rescan_hosts,
}

-- The rows that the scan found again, and those it did not.
abbrev pub kept : (Bytes → Option HostResult) → List HostResult → List HostResult
kept found [] = []
kept found (old ∷ rows) = elim (found old.ip) [
  | some h ↦ h ∷ kept found rows
  | none ↦ kept found rows
]

abbrev pub lost : (Bytes → Option HostResult) → List HostResult → List HostResult
lost found [] = []
lost found (old ∷ rows) = elim (found old.ip) [
  | some h ↦ lost found rows
  | none ↦ dead old ∷ lost found rows
]

module _ (found : Bytes → Option HostResult) (w : Bool) (now : ℕ) (old : HostResult)
    (s : Sorted) where
  sort_row-lost :
      found old.ip ≡ none
      → ((sort_row found w now old s).next ≡ s.next)
        × ((sort_row found w now old s).dropped ≡ s.dropped ++ dead old ∷ [])
  unfolding sort_row
  sort_row-lost e = rw (e, sort_row) (refl, refl)

  sort_row-kept :
      (h : HostResult)
      → found old.ip ≡ some h
      → ((sort_row found w now old s).next ≡ s.next ++ h ∷ [])
        × ((sort_row found w now old s).dropped ≡ s.dropped)
  unfolding sort_row
  sort_row-kept h e = rw (e, sort_row) (refl, refl)

pub sort_rows_lem :
    (found : Bytes → Option HostResult) (w : Bool) (now : ℕ) (rows : List HostResult) (s : Sorted)
    → ((sort_rows found w now rows s).next ≡ s.next ++ kept found rows)
      × ((sort_rows found w now rows s).dropped ≡ s.dropped ++ lost found rows)
unfolding sort_rows
sort_rows_lem found w now [] s = (sym (append-nil s.next), sym (append-nil s.dropped))
sort_rows_lem found w now (old ∷ rows) s =
    let (next, dropped) = sort_rows_lem found w now rows (sort_row found w now old s) in
    elim (Option-cases (found old.ip)) [
      | inl e ↦
          let (same, more) = sort_row-lost found w now old s e in
          rw (e, kept, lost)
            (
              next ∙ ap (λ x. x ++ kept found rows) same,
              dropped
                  ∙ ap (λ x. x ++ lost found rows) more
                  ∙ append_assoc s.dropped (dead old ∷ []) (lost found rows),
            )
      | inr (h, e) ↦
          let (more, same) = sort_row-kept found w now old s h e in
          rw (e, kept, lost)
            (
              next
                  ∙ ap (λ x. x ++ kept found rows) more
                  ∙ append_assoc s.next (h ∷ []) (kept found rows),
              dropped ∙ ap (λ x. x ++ lost found rows) same,
            )
    ]

-- No two rows have one address.
abbrev pub IsDistinct : List HostResult → Type 0
IsDistinct [] = Unit
IsDistinct (h ∷ hosts) = (has_host h.ip hosts ≡ false) × IsDistinct hosts

abbrev pub or_else : Option HostResult → Option HostResult → Option HostResult
or_else none other = other
or_else (some h) other = some h

pub find_host-append :
    (ip : Bytes) (a b : List HostResult)
    → find_host ip (a ++ b) ≡ or_else (find_host ip a) (find_host ip b)
unfolding find_host
find_host-append ip [] b = refl
find_host-append ip (h ∷ a) b = elim (Bool-cases (text_eq h.ip ip)) [
  | inl e ↦ rw (e) refl
  | inr e ↦ rw (e) (find_host-append ip a b)
]

-- A scan's answer for an address is a host with that address.
abbrev pub IsAnswer : (Bytes → Option HostResult) → Type 0
IsAnswer found = (ip : Bytes) (h : HostResult) → found ip ≡ some h → h.ip ≡ ip

pub by_ip-IsAnswer : (hosts : List HostResult) → IsAnswer (by_ip hosts)
unfolding by_ip
by_ip-IsAnswer [] ip h e = ground arith
by_ip-IsAnswer (x ∷ hosts) ip h e = elim (Option-cases (by_ip hosts ip)) [
  | inl none_later ↦ ground (arith, none_later, text_eq_iff x.ip ip)
  | inr (f, later) ↦ ground (arith, later, by_ip-IsAnswer hosts ip h)
]

-- `has_host` says whether `find_host` finds.
pub find_host-none :
    (ip : Bytes) (hosts : List HostResult) → has_host ip hosts ≡ false → find_host ip hosts ≡ none
unfolding has_host find_host
find_host-none ip [] e = refl
find_host-none ip (h ∷ hosts) e = ground (arith, find_host-none ip hosts)

find_host-some :
    (ip : Bytes) (hosts : List HostResult) (h : HostResult)
    → find_host ip hosts ≡ some h
    → has_host ip hosts ≡ true
unfolding has_host find_host
find_host-some ip [] h e = ground arith
find_host-some ip (x ∷ hosts) h e = ground (arith, find_host-some ip hosts h)

text_eq_of_same : (a b : Bytes) → a ≡ b → text_eq a b ≡ true
text_eq_of_same a b e = (text_eq_iff a b).1 e

same_text : (a b c : Bytes) → a ≡ b → text_eq a c ≡ text_eq b c
same_text a b c e = ap (λ x. text_eq x c) e

pub if-none : (b : Bool) (o : Option HostResult) → o ≡ none → (if b then o else none) ≡ o
if-none true o e = refl
if-none false o e = sym e

-- No row where there is an answer.
abbrev pub unless : Option HostResult → Option HostResult → Option HostResult
unless none o = o
unless (some h) o = none

module _ (found : Bytes → Option HostResult) (ans : IsAnswer found) (ip : Bytes) where
  pub find_host-kept :
      (rows : List HostResult)
      → find_host ip (kept found rows) ≡ (if has_host ip rows then found ip else none)
  unfolding find_host has_host
  find_host-kept [] = refl
  find_host-kept (old ∷ rows) =
      let rest = find_host-kept rows in
      elim (Bool-cases (text_eq old.ip ip)) [
        | inl eq ↦
            let here : found old.ip ≡ found ip = ap found ((text_eq_iff old.ip ip).0 eq) in
            elim (Option-cases (found ip)) [
              | inl e ↦ rw (here ∙ e, kept, eq) (rest ∙ if-none (has_host ip rows) (found ip) e)
              | inr (h, e) ↦ rw (here ∙ e, kept, eq, text_eq_of_same h.ip ip (ans ip h e)) (sym e)
            ]
        | inr ne ↦ elim (Option-cases (found old.ip)) [
          | inl e ↦ rw (e, kept, ne) rest
          | inr (g, e) ↦ rw (e, kept, ne, same_text g.ip old.ip ip (ans old.ip g e) ∙ ne) rest
        ]
      ]

  pub find_host-lost :
      (rows : List HostResult)
      → find_host ip (lost found rows) ≡ unless (found ip) (Option.map dead (find_host ip rows))
  unfolding find_host
  find_host-lost [] = elim (Option-cases (found ip)) [
    | inl e ↦ rw (e) refl
    | inr (h, e) ↦ rw (e) refl
  ]
  find_host-lost (old ∷ rows) =
      let rest = find_host-lost rows in
      elim (Bool-cases (text_eq old.ip ip)) [
        | inl eq ↦
            let here : found old.ip ≡ found ip = ap found ((text_eq_iff old.ip ip).0 eq) in
            elim (Option-cases (found ip)) [
              | inl e ↦ rw (here ∙ e, lost, eq, e) refl
              | inr (h, e) ↦ rw (here ∙ e, lost, eq) (rest ∙ rw (e) refl)
            ]
        | inr ne ↦ elim (Option-cases (found old.ip)) [
          | inl e ↦ rw (e, lost, ne) rest
          | inr (g, e) ↦ rw (e, lost, ne) rest
        ]
      ]

pub has_host-none :
    (ip : Bytes) (hosts : List HostResult) → find_host ip hosts ≡ none → has_host ip hosts ≡ false
unfolding has_host find_host
has_host-none ip [] e = refl
has_host-none ip (h ∷ hosts) e = ground (arith, has_host-none ip hosts)

pub find_host-fresh :
    (ip : Bytes) (seen : List HostResult) (w : Bool) (now : ℕ) (hosts : List HostResult)
    (d : List (Bytes × ℕ))
    → find_host ip (fresh_hosts seen w now hosts d).0
      ≡ (if has_host ip seen then none else find_host ip hosts)
unfolding fresh_hosts find_host
find_host-fresh ip seen w now [] d = ground arith
find_host-fresh ip seen w now (h ∷ hosts) d = elim (Bool-cases (text_eq h.ip ip)) [
  | inl eq ↦
      let same : has_host h.ip seen ≡ has_host ip seen =
        ap (λ x. has_host x seen) ((text_eq_iff h.ip ip).0 eq) in
      elim (Bool-cases (has_host ip seen)) [
        | inl k ↦ rw (same ∙ k, eq, k) (find_host-fresh ip seen w now hosts _ ∙ rw (k) refl)
        | inr k ↦ rw (same ∙ k, eq, k) refl
      ]
  | inr ne ↦ elim (Bool-cases (has_host h.ip seen)) [
    | inl k ↦ rw (k, ne) (find_host-fresh ip seen w now hosts _)
    | inr k ↦ rw (k, ne) (find_host-fresh ip seen w now hosts _)
  ]
]

pub by_ip-find_host :
    (hosts : List HostResult) (ip : Bytes) → IsDistinct hosts → by_ip hosts ip ≡ find_host ip hosts
unfolding by_ip find_host
by_ip-find_host [] ip d = refl
by_ip-find_host (h ∷ hosts) ip (new, d) =
    let rest = by_ip-find_host hosts ip d in
    elim (Bool-cases (text_eq h.ip ip)) [
      | inl eq ↦
          let gone : has_host ip hosts ≡ false =
            ap (λ x. has_host x hosts) (sym ((text_eq_iff h.ip ip).0 eq)) ∙ new in
          rw (rest ∙ find_host-none ip hosts gone, eq) refl
      | inr ne ↦
          rw (rest, ne)
            (elim (Option-cases (find_host ip hosts)) [
              | inl e ↦ rw (e, ne) refl
              | inr (g, e) ↦ rw (e) refl
            ])
    ]

-- The rows after a rescan, up to their order.
abbrev pub or_dead : Option HostResult → Option HostResult → Option HostResult
or_dead scanned row = or_else scanned (Option.map dead row)

choice :
    (scanned row : Option HostResult) (old seen : Bool)
    → (old ≡ false → seen ≡ false)
    → or_else
        (or_else (if old then scanned else none) (unless scanned (Option.map dead row)))
        (if seen then none else scanned)
      ≡ or_dead scanned row
choice none none old seen h = ground arith
choice none (some r) old seen h = ground arith
choice (some h) row true seen imp = refl
choice (some h) row false seen imp = rw (imp refl) refl

-- After a rescan the row of an address is what the scan found there, or else the old row, dead, for
-- every address.
pub find_host-reconcile :
    (now : ℕ) (hosts : List HostResult) (t : ScanTui) (ip : Bytes)
    → IsDistinct hosts
    → find_host ip (reconcile_rescan_hosts now hosts t).hosts
      ≡ or_dead (find_host ip hosts) (find_host ip t.hosts)
unfolding reconcile_rescan_hosts
find_host-reconcile now hosts t ip distinct =
    let found = by_ip hosts in
    let (next, dropped) =
      sort_rows_lem found t.watch_populated now t.hosts
        (record { next = []; dropped = []; changed_at = t.host_changed_at }) in
    let k = find_host-kept found (by_ip-IsAnswer hosts) ip t.hosts in
    let l = find_host-lost found (by_ip-IsAnswer hosts) ip t.hosts in
    let f =
      find_host-fresh ip (kept found t.hosts) (text_eq t.phase (codes "watch")) now hosts
        t.host_discovered_at in
    let b = by_ip-find_host hosts ip distinct in
    let unseen : has_host ip t.hosts ≡ false → has_host ip (kept found t.hosts) ≡ false =
      λ e. has_host-none ip (kept found t.hosts) (k ∙ rw (e) refl) in
    rw
      (
        next,
        dropped,
        find_host-append ip (kept found t.hosts ++ lost found t.hosts),
        find_host-append ip (kept found t.hosts),
        k,
        l,
        f,
        b,
      )
      (choice (find_host ip hosts) (find_host ip t.hosts) (has_host ip t.hosts)
        (has_host ip (kept found t.hosts)) unseen)
