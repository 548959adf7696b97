-- ===== src/Tui/Distinct.antt =====
-- The table has at most one row for an address: what the list operations of the table do to that.
use ipscry.Common.{
  ◌≡◌, refl, sym, ap, ◌∙◌, ◌⊎◌, inl, inr, true, false, ◌&&◌, ◌||◌, none, some, List, [], ◌∷◌, ◌++◌,
  arith, Bool-cases, Option-cases, Bytes,
}
use ipscry.Common.Text.{text_eq, text_eq_iff}
use ipscry.Common.Int.{ℤ}
use ipscry.Hosts.{HostResult, is_empty, blank_host}
use ipscry.Tui.{update_host, has_host, upsert_placeholder, lower_latency}
use ipscry.Tui.{move_host_to_bottom}
use ipscry.Tui.Reports.{drop_row, place_host, add_placeholders}
use ipscry.Tui.Rescan.Rows.{IsDistinct}

-- A change of the rows of an address that keeps the address.
abbrev pub KeepsIp : Bytes → (HostResult → HostResult) → Type 0
KeepsIp ip f = (h : HostResult) → text_eq h.ip ip ≡ true → (f h).ip ≡ h.ip

pub has_host-update :
    (x ip : Bytes) (f : HostResult → HostResult) (hosts : List HostResult)
    → KeepsIp ip f
    → has_host x (update_host ip f hosts) ≡ has_host x hosts
unfolding has_host update_host
has_host-update x ip f [] keep = refl
has_host-update x ip f (h ∷ hosts) keep = elim (Bool-cases (text_eq h.ip ip)) [
  | inl eq ↦ rw (eq) (ap (λ i. text_eq i x || has_host x hosts) (keep h eq))
  | inr ne ↦ rw (ne) (ap (λ b. text_eq h.ip x || b) (has_host-update x ip f hosts keep))
]

pub update_host-IsDistinct :
    (ip : Bytes) (f : HostResult → HostResult) (hosts : List HostResult)
    → KeepsIp ip f
    → IsDistinct hosts
    → IsDistinct (update_host ip f hosts)
unfolding update_host
update_host-IsDistinct ip f [] keep d = tt
update_host-IsDistinct ip f (h ∷ hosts) keep (new, d) = elim (Bool-cases (text_eq h.ip ip)) [
  | inl eq ↦ rw (eq) (ap (λ i. has_host i hosts) (keep h eq) ∙ new, d)
  | inr ne ↦
      rw (ne) (has_host-update h.ip ip f hosts keep ∙ new, update_host-IsDistinct ip f hosts keep d)
]

pub has_host-append :
    (x : Bytes) (a b : List HostResult) → has_host x (a ++ b) ≡ (has_host x a || has_host x b)
unfolding has_host
has_host-append x [] b = refl
has_host-append x (h ∷ a) b = ground (arith, has_host-append x a b)

-- Two lists that share no address.
abbrev pub AreApart : List HostResult → List HostResult → Type 0
AreApart a b = (x : Bytes) → has_host x a ≡ true → has_host x b ≡ false

text_eq_sym : (a b : Bytes) → text_eq a b ≡ text_eq b a
text_eq_sym a b = ground (arith, text_eq_iff a b, text_eq_iff b a)

text_eq_self : (a : Bytes) → text_eq a a ≡ true
text_eq_self a = (text_eq_iff a a).1 refl

pub append-IsDistinct :
    (a b : List HostResult) → IsDistinct a → IsDistinct b → AreApart a b → IsDistinct (a ++ b)
unfolding has_host
append-IsDistinct [] b d e apart = e
append-IsDistinct (h ∷ a) b (new, d) e apart =
    let here : has_host h.ip b ≡ false = apart h.ip (rw (text_eq_self h.ip) refl) in
    let later : AreApart a b = λ x s. apart x (rw (s) (ground arith)) in
    (has_host-append h.ip a b ∙ rw (new) here, append-IsDistinct a b d e later)

pub snoc-IsDistinct :
    (a : List HostResult) (h : HostResult)
    → IsDistinct a
    → has_host h.ip a ≡ false
    → IsDistinct (a ++ h ∷ [])
unfolding has_host
snoc-IsDistinct a h d new =
    append-IsDistinct a (h ∷ []) d (refl, tt)
      (λ x s. elim (Bool-cases (text_eq h.ip x)) [
        | inl eq ↦
            let gone : has_host x a ≡ false =
              ap (λ i. has_host i a) (sym ((text_eq_iff h.ip x).0 eq)) ∙ new in
            ground arith
        | inr ne ↦ rw (ne) refl
      ])

has_host-move :
    (x ip : Bytes) (hosts : List HostResult)
    → has_host x (move_host_to_bottom ip hosts) ≡ has_host x hosts
unfolding has_host move_host_to_bottom
has_host-move x ip [] = refl
has_host-move x ip (h ∷ hosts) = elim (Bool-cases (text_eq h.ip ip)) [
  | inl eq ↦ rw (eq, has_host-append x hosts (h ∷ [])) (ground arith)
  | inr ne ↦ rw (ne) (ap (λ b. text_eq h.ip x || b) (has_host-move x ip hosts))
]

pub move-IsDistinct :
    (ip : Bytes) (hosts : List HostResult)
    → IsDistinct hosts
    → IsDistinct (move_host_to_bottom ip hosts)
unfolding move_host_to_bottom
move-IsDistinct ip [] d = tt
move-IsDistinct ip (h ∷ hosts) (new, d) = elim (Bool-cases (text_eq h.ip ip)) [
  | inl eq ↦ rw (eq) (snoc-IsDistinct hosts h d new)
  | inr ne ↦ rw (ne) (has_host-move h.ip ip hosts ∙ new, move-IsDistinct ip hosts d)
]

pub place_host-IsDistinct :
    (h : HostResult) (hosts : List HostResult) → IsDistinct hosts → IsDistinct (place_host h hosts)
unfolding place_host
place_host-IsDistinct h hosts d = elim (Bool-cases (has_host h.ip hosts)) [
  | inl e ↦
      rw (e)
        (update_host-IsDistinct h.ip (λ _. h) hosts (λ g eq. sym ((text_eq_iff g.ip h.ip).0 eq)) d)
  | inr e ↦ rw (e) (snoc-IsDistinct hosts h d e)
]

lower_latency-ip : (ms : ℤ) (h : HostResult) → (lower_latency ms h).ip ≡ h.ip
lower_latency-ip ms h = ground arith

pub upsert_placeholder-IsDistinct :
    (ip : Bytes) (ms : ℤ) (hosts : List HostResult)
    → IsDistinct hosts
    → IsDistinct (upsert_placeholder ip ms hosts)
unfolding upsert_placeholder
upsert_placeholder-IsDistinct ip ms hosts d = elim (Bool-cases (has_host ip hosts)) [
  | inl e ↦
      rw (e) (update_host-IsDistinct ip (lower_latency ms) hosts (λ g eq. lower_latency-ip ms g) d)
  | inr e ↦ rw (e) (snoc-IsDistinct hosts (blank_host ip ms []) d e)
]

pub add_placeholders-IsDistinct :
    (m : List (Bytes × ℤ)) (ips : List Bytes) (hosts : List HostResult)
    → IsDistinct hosts
    → IsDistinct (add_placeholders m ips hosts)
unfolding add_placeholders
add_placeholders-IsDistinct m [] hosts d = d
add_placeholders-IsDistinct m (ip ∷ ips) hosts d =
    add_placeholders-IsDistinct m ips _ (upsert_placeholder-IsDistinct ip _ hosts d)

drop_row-nil : (ip : Bytes) (rest : List HostResult) → drop_row ip [] ≡ some rest → ⊥
unfolding drop_row
drop_row-nil ip rest e = ground (arith, e)

-- What `drop_row` leaves: none where it removes nothing.
drop_row-cons :
    (ip : Bytes) (h : HostResult) (hosts rest : List HostResult)
    → drop_row ip (h ∷ hosts) ≡ some rest
    → (rest ≡ hosts)
      ⊎ ((left : List HostResult) × ((drop_row ip hosts ≡ some left) × (rest ≡ h ∷ left)))
unfolding drop_row
drop_row-cons ip h hosts rest e =
    elim (Bool-cases (text_eq h.ip ip && (is_empty h.mac && is_empty h.open_ports))) [
      | inl a ↦
          let same : some hosts ≡ some rest = sym (rw (a) refl) ∙ e in inl (ground (arith, same))
      | inr a ↦ elim (Option-cases (drop_row ip hosts)) [
        | inl b ↦ let same : none ≡ some rest = sym (rw (a, b) refl) ∙ e in ground (arith, same)
        | inr (left, b) ↦
            let same : some (h ∷ left) ≡ some rest = sym (rw (a, b) refl) ∙ e in
            inr (left, (b, ground (arith, same)))
      ]
    ]

-- Removing a row adds no address.
pub drop_row-IsDistinct :
    (ip : Bytes) (hosts rest : List HostResult)
    → drop_row ip hosts ≡ some rest
    → IsDistinct hosts
    → IsDistinct rest × ((x : Bytes) → has_host x hosts ≡ false → has_host x rest ≡ false)
unfolding has_host
drop_row-IsDistinct ip [] rest e d = absurd (drop_row-nil ip rest e)
drop_row-IsDistinct ip (h ∷ hosts) rest e (new, d) = elim (drop_row-cons ip h hosts rest e) [
  | inl same ↦ rw (same) (d, λ x a. ground arith)
  | inr (left, (more, same)) ↦
      let (e2, sub) = drop_row-IsDistinct ip hosts left more d in
      rw (same) ((sub h.ip new, e2), λ x a. ground (arith, sub x))
]
