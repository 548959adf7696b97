-- ===== src/Tui/Escalation.antt =====
-- A host that stops to answer: when the fast probe declares it dead.
use ipscry.Common.{
  ℕ, zero, suc, ◌+◌, ◌≤◌, ◌<◌, ◌≡◌, refl, sym, ap, ◌∙◌, inl, inr, true, false, not, ◌&&◌, Option,
  none, some, List, [], ◌∷◌, arith, ltb, if◌then◌else◌, ltb→lt, ltb→le, Bool-cases, Option-cases,
  Bytes,
}
use ipscry.Common.Text.{text_eq, text_eq_iff}
use ipscry.Common.Int.{ℤ}
use ipscry.Common.Maps.{find, put}
use ipscry.Hosts.{HostResult}
use ipscry.Tui.{ScanTui, HostPingStats, record_ping, update_host, has_host}
use ipscry.Common.Maps.{find-put}
use ipscry.Tui.{
  tui_dead_after_misses, misses, record_miss, stats_for, add_miss, move_host_to_bottom,
}
use ipscry.Tui.Reports.{find_host}
use ipscry.Tui.Probe.{is_dead, answered, silenced, settle, probe_row, probe}
use ipscry.Tui.Distinct.{update_host-IsDistinct, move-IsDistinct}
use ipscry.Tui.Rescan.{dead}
use ipscry.Tui.Rescan.Rows.{IsDistinct, find_host-none, find_host-append}

-- A row that was found has the address.
find_host-ip :
    (ip : Bytes) (hosts : List HostResult) (h : HostResult)
    → find_host ip hosts ≡ some h
    → h.ip ≡ ip
unfolding find_host
find_host-ip ip [] h e = ground arith
find_host-ip ip (x ∷ hosts) h e = ground (arith, text_eq_iff x.ip ip, find_host-ip ip hosts h)

pub find_host-update :
    (ip : Bytes) (after : HostResult) (hosts : List HostResult) (h : HostResult)
    → find_host ip hosts ≡ some h
    → text_eq after.ip ip ≡ true
    → find_host ip (update_host ip (λ _. after) hosts) ≡ some after
unfolding find_host update_host
find_host-update ip after [] h e same = ground arith
find_host-update ip after (x ∷ hosts) h e same = elim (Bool-cases (text_eq x.ip ip)) [
  | inl eq ↦ rw (eq, same) refl
  | inr ne ↦
      let more : find_host ip hosts ≡ some h = sym (rw (ne) refl) ∙ e in
      rw (ne) (rw (ne) (find_host-update ip after hosts h more same))
]

pub find_host-move :
    (ip : Bytes) (hosts : List HostResult)
    → IsDistinct hosts
    → find_host ip (move_host_to_bottom ip hosts) ≡ find_host ip hosts
unfolding find_host move_host_to_bottom
find_host-move ip [] d = refl
find_host-move ip (x ∷ hosts) (new, d) = elim (Bool-cases (text_eq x.ip ip)) [
  | inl eq ↦
      let gone : has_host ip hosts ≡ false =
        ap (λ i. has_host i hosts) (sym ((text_eq_iff x.ip ip).0 eq)) ∙ new in
      rw (eq, find_host-append ip hosts (x ∷ []), find_host-none ip hosts gone) (rw (eq) refl)
  | inr ne ↦ rw (ne) (rw (ne) (find_host-move ip hosts d))
]

misses-record_miss :
    (ip : Bytes) (m : List (Bytes × HostPingStats)) → misses ip (record_miss ip m) ≡ misses ip m + 1
unfolding record_miss misses stats_for add_miss
misses-record_miss ip m =
    let stored : find ip (put ip (add_miss (stats_for m ip)) m) ≡ some (add_miss (stats_for m ip)) =
      find-put ip ip (add_miss (stats_for m ip)) m ∙ rw ((text_eq_iff ip ip).1 refl) refl in
    rw (misses, stored, stats_for, add_miss)
      (elim (Option-cases (find ip m)) [
        | inl e ↦ rw (e, stats_for, misses) refl
        | inr (s, e) ↦ rw (e, stats_for, misses) refl
      ])

-- The row of the address after a round is `after`.
find_host-settle :
    (now : ℕ) (ip : Bytes) (before after : HostResult) (t : ScanTui)
    → IsDistinct t.hosts
    → find_host ip t.hosts ≡ some before
    → text_eq after.ip ip ≡ true
    → find_host ip (settle now ip before after t).hosts ≡ some after
unfolding settle
find_host-settle now ip before after t d e same =
    let kept_ip : (h : HostResult) → text_eq h.ip ip ≡ true → after.ip ≡ h.ip =
      λ h eq. (text_eq_iff after.ip ip).0 same ∙ sym ((text_eq_iff h.ip ip).0 eq) in
    let placed = find_host-update ip after t.hosts before e same in
    elim (Bool-cases (is_dead after && not (is_dead before))) [
      | inl c ↦ rw (c) (
          find_host-move ip (update_host ip (λ _. after) t.hosts)
            (update_host-IsDistinct ip (λ _. after) t.hosts kept_ip d)
          ∙ placed)
      | inr c ↦ rw (c) placed
    ]

silenced-ip : (n : ℕ) (h : HostResult) → (silenced n h).ip ≡ h.ip
unfolding silenced
silenced-ip n h = ground arith

-- One silent probe, on a row that is found.
probe-silent :
    (now : ℕ) (ip : Bytes) (t : ScanTui) (h : HostResult)
    → IsDistinct t.hosts
    → find_host ip t.hosts ≡ some h
    → (misses ip (probe now [] ip t).ping_stats ≡ misses ip t.ping_stats + 1)
      × (find_host ip (probe now [] ip t).hosts ≡ some (silenced (misses ip t.ping_stats + 1) h))
unfolding probe probe_row settle find
probe-silent now ip t h d e =
    let m = misses-record_miss ip t.ping_stats in
    let same : text_eq (silenced (misses ip t.ping_stats + 1) h).ip ip ≡ true =
      (text_eq_iff _ ip).1
        (silenced-ip (misses ip t.ping_stats + 1) h ∙ find_host-ip ip t.hosts h e) in
    let stats = record_miss ip t.ping_stats in
    let placed =
      find_host-settle now ip h (silenced (misses ip t.ping_stats + 1) h)
        (record t { ping_stats = stats }) d e same in
    rw (e, probe) (m, rw (m) placed)

pub settle-IsDistinct :
    (now : ℕ) (ip : Bytes) (before after : HostResult) (t : ScanTui)
    → IsDistinct t.hosts
    → text_eq after.ip ip ≡ true
    → IsDistinct (settle now ip before after t).hosts
unfolding settle
settle-IsDistinct now ip before after t d same =
    let kept_ip : (h : HostResult) → text_eq h.ip ip ≡ true → after.ip ≡ h.ip =
      λ h eq. (text_eq_iff after.ip ip).0 same ∙ sym ((text_eq_iff h.ip ip).0 eq) in
    let updated = update_host-IsDistinct ip (λ _. after) t.hosts kept_ip d in
    elim (Bool-cases (is_dead after && not (is_dead before))) [
      | inl c ↦ rw (c) (move-IsDistinct ip (update_host ip (λ _. after) t.hosts) updated)
      | inr c ↦ rw (c) updated
    ]

answered-ip : (ms : ℤ) (h : HostResult) → (answered ms h).ip ≡ h.ip
unfolding answered
answered-ip ms h = refl

probe_row-IsDistinct :
    (now : ℕ) (ip : Bytes) (answer : Option ℤ) (h : HostResult) (t : ScanTui)
    → IsDistinct t.hosts
    → h.ip ≡ ip
    → IsDistinct (probe_row now ip answer h t).hosts
unfolding probe_row
probe_row-IsDistinct now ip none h t d own =
    let stats = record_miss ip t.ping_stats in
    settle-IsDistinct now ip h (silenced (misses ip stats) h) (record t { ping_stats = stats }) d
      ((text_eq_iff _ ip).1 (silenced-ip (misses ip stats) h ∙ own))
probe_row-IsDistinct now ip (some ms) h t d own =
    settle-IsDistinct now ip h (answered ms h)
      (record t { ping_stats = record_ping ip ms t.ping_stats }) d
      ((text_eq_iff _ ip).1 (answered-ip ms h ∙ own))

pub probe-IsDistinct :
    (now : ℕ) (pings : List (Bytes × ℤ)) (ip : Bytes) (t : ScanTui)
    → IsDistinct t.hosts
    → IsDistinct (probe now pings ip t).hosts
unfolding probe
probe-IsDistinct now pings ip t d = elim (Option-cases (find_host ip t.hosts)) [
  | inl e ↦ rw (e, probe) d
  | inr (h, e) ↦
      rw (e, probe)
        (probe_row-IsDistinct now ip (find ip pings) h t d (find_host-ip ip t.hosts h e))
]

-- Probes in a row that the host does not answer, one each second.
abbrev pub silent : ℕ → ℕ → Bytes → ScanTui → ScanTui
silent zero now ip t = t
silent (suc n) now ip t = silent n (now + 1) ip (probe now [] ip t)

module _ (n : ℕ) (h : HostResult) where
  silenced-early : n < tui_dead_after_misses → silenced n h ≡ h
  unfolding silenced
  silenced-early few = ground arith

  silenced-late : tui_dead_after_misses ≤ n → is_dead h ≡ false → silenced n h ≡ dead h
  unfolding silenced
  silenced-late many alive = rw (alive) (ground arith)

  silenced-dead : is_dead h ≡ true → silenced n h ≡ h
  unfolding silenced
  silenced-dead e = rw (e) (ground arith)

-- A later count in place of an earlier one.
silenced-silenced : (m n : ℕ) (h : HostResult) → m ≤ n → silenced n (silenced m h) ≡ silenced n h
silenced-silenced m n h le = elim (Bool-cases (ltb m tui_dead_after_misses)) [
  | inl e ↦ ap (silenced n) (silenced-early m h (ltb→lt m 10 e))
  | inr e ↦
      let many : 10 ≤ m = ltb→le m 10 e in
      elim (Bool-cases (is_dead h)) [
        | inl gone ↦ ap (silenced n) (silenced-dead m h gone)
        | inr alive ↦
            ap (silenced n) (silenced-late m h many alive)
            ∙ silenced-dead n (dead h) ((text_eq_iff _ _).1 refl)
            ∙ sym (silenced-late n h (omega arith) alive)
      ]
]

silent-silenced :
    (n now : ℕ) (ip : Bytes) (t : ScanTui) (h : HostResult)
    → IsDistinct t.hosts
    → find_host ip t.hosts ≡ some h
    → find_host ip (silent (suc n) now ip t).hosts
      ≡ some (silenced (misses ip t.ping_stats + suc n) h)
silent-silenced zero now ip t h d e = (probe-silent now ip t h d e).1
silent-silenced (suc n) now ip t h d e =
    let before = misses ip t.ping_stats in
    let (m, row) = probe-silent now ip t h d e in
    let rest =
      silent-silenced n (now + 1) ip (probe now [] ip t) (silenced (before + 1) h)
        (probe-IsDistinct now [] ip t d) row in
    let total : misses ip (probe now [] ip t).ping_stats + suc n ≡ before + suc (suc n) =
      omega arith in
    rest
    ∙ ap some (
        ap (λ c. silenced c (silenced (before + 1) h)) total
        ∙ silenced-silenced (before + 1) (before + suc (suc n)) h (omega arith))

-- A host that is not dead and stops to answer keeps its row until its tenth miss in a row, and then
-- its row is marked dead, without a latency, and stays so.
pub silent_lem :
    (n now : ℕ) (ip : Bytes) (t : ScanTui) (h : HostResult)
    → IsDistinct t.hosts
    → find_host ip t.hosts ≡ some h
    → is_dead h ≡ false
    → find_host ip (silent (suc n) now ip t).hosts
      ≡ some (if ltb (misses ip t.ping_stats + suc n) 10 then h else dead h)
silent_lem n now ip t h d e alive =
    let count = misses ip t.ping_stats + suc n in
    silent-silenced n now ip t h d e ∙ (elim (Bool-cases (ltb count 10)) [
      | inl few ↦ rw (few) (ap some (silenced-early count h (ltb→lt count 10 few)))
      | inr many ↦ rw (many) (ap some (silenced-late count h (ltb→le count 10 many) alive))
    ])
