-- ===== src/Tui/Scroll/Shown.antt =====
-- What the screen shows after a key that scrolls.
use ipscry.Common.{
  ℕ, ◌+◌, ◌-◌, ◌≤◌, ◌<◌, min, ◌≡◌, refl, sym, ap, ◌∙◌, ◌⊎◌, inl, inr, true, false, List, arith, ltb,
  if◌then◌else◌, Bool-cases, length, take, drop, take-all,
}
use mathlib.Core.Path.{subst}
use ipscry.Hosts.{HostResult}
use ipscry.Tui.{ScanTui}
use ipscry.Tui.Scroll.{
  ScrollKey, key_up, key_down, key_page_up, key_page_down, key_top, key_bottom, tui_max_host_rows,
  scrolled, scroll, can_scroll, host_view,
}
use ipscry.Tui.Scroll.Window.{
  window, Precedes, Slides, Begins, EndsWith, length-window, window-Precedes, window-Begins,
  window-EndsWith, window-Slides,
}

-- How the rows `after` a key lie to the rows `before`, which have `above` hosts above them, in the list of
-- all hosts: a row further, a page further, or where there is less than that, at the end of the list
abbrev pub IsMoved :
    ScrollKey → ℕ → ℕ → List HostResult → List HostResult → List HostResult → Type 0
IsMoved key_up page above hosts before after =
    ((0 < above) × Slides hosts after before) ⊎ ((above ≡ 0) × (after ≡ before))
IsMoved key_down page above hosts before after =
    ((above + page < length hosts) × Slides hosts before after)
    ⊎ ((length hosts ≤ above + page) × (after ≡ before))
IsMoved key_page_up page above hosts before after =
    ((page ≤ above) × Precedes hosts after before) ⊎ ((above < page) × Begins hosts after)
IsMoved key_page_down page above hosts before after =
    ((above + page + page ≤ length hosts) × Precedes hosts before after)
    ⊎ ((length hosts < above + page + page) × EndsWith hosts after)
IsMoved key_top page above hosts before after = Begins hosts after
IsMoved key_bottom page above hosts before after = EndsWith hosts after

-- An offset that is cut at the last full screen
abbrev cut_at : ℕ → ℕ → ℕ
cut_at max_off off = if ltb max_off off then max_off else off

window-IsMoved :
    (key : ScrollKey) (page off : ℕ) (xs : List HostResult)
    → 0 < page
    → off ≤ length xs - page
    → IsMoved key page off xs
        (window page off xs)
        (window page (cut_at (length xs - page) (scrolled key page (length xs - page) off)) xs)
window-IsMoved key_up page off xs p h = elim (Bool-cases (ltb 0 off)) [
  | inl e ↦
      let next : cut_at (length xs - page) (off - 1) ≡ off - 1 = ground arith in
      let back : off - 1 + 1 ≡ off = ground arith in
      inl (
        ground arith,
        subst (λ o. Slides xs (window page o xs) (window page off xs)) (sym next)
            (subst (λ o. Slides xs (window page (off - 1) xs) (window page o xs)) back
              (window-Slides page (off - 1) xs p (ground arith))),
      )
  | inr e ↦
      let next : cut_at (length xs - page) (off - 1) ≡ off = ground arith in
      inr (ground arith, ap (λ o. window page o xs) next)
]
window-IsMoved key_down page off xs p h = elim (Bool-cases (ltb (off + page) (length xs))) [
  | inl e ↦
      let next : cut_at (length xs - page) (off + 1) ≡ off + 1 = ground arith in
      inl (
        ground arith,
        subst (λ o. Slides xs (window page off xs) (window page o xs)) (sym next)
            (window-Slides page off xs p (ground arith)),
      )
  | inr e ↦
      let next : cut_at (length xs - page) (off + 1) ≡ off = ground arith in
      inr (ground arith, ap (λ o. window page o xs) next)
]
window-IsMoved key_page_up page off xs p h = elim (Bool-cases (ltb off page)) [
  | inl e ↦
      let next : cut_at (length xs - page) (off - page) ≡ 0 = ground arith in
      inr
        (ground arith, subst (λ o. Begins xs (window page o xs)) (sym next) (window-Begins page xs))
  | inr e ↦
      let next : cut_at (length xs - page) (off - page) ≡ off - page = ground arith in
      let back : off - page + page ≡ off = ground arith in
      inl (
        ground arith,
        subst (λ o. Precedes xs (window page o xs) (window page off xs)) (sym next)
            (subst (λ o. Precedes xs (window page (off - page) xs) (window page o xs)) back
              (window-Precedes page (off - page) xs)),
      )
]
window-IsMoved key_page_down page off xs p h =
    elim (Bool-cases (ltb (length xs) (off + page + page))) [
      | inl e ↦
          let next : cut_at (length xs - page) (off + page) ≡ length xs - page = ground arith in
          inr (
            ground arith,
            subst (λ o. EndsWith xs (window page o xs)) (sym next) (window-EndsWith page xs),
          )
      | inr e ↦
          let next : cut_at (length xs - page) (off + page) ≡ off + page = ground arith in
          inl (
            ground arith,
            subst (λ o. Precedes xs (window page off xs) (window page o xs)) (sym next)
                (window-Precedes page off xs),
          )
    ]
window-IsMoved key_top page off xs p h =
    let next : cut_at (length xs - page) 0 ≡ 0 = ground arith in
    subst (λ o. Begins xs (window page o xs)) (sym next) (window-Begins page xs)
window-IsMoved key_bottom page off xs p h =
    let next : cut_at (length xs - page) (length xs - page) ≡ length xs - page = ground arith in
    subst (λ o. EndsWith xs (window page o xs)) (sym next) (window-EndsWith page xs)

page_positive : (rows : ℕ) → 0 < tui_max_host_rows rows
unfolding tui_max_host_rows
page_positive rows = ground arith

host_view-window :
    (rows : ℕ) (t : ScanTui)
    → can_scroll t.phase ≡ true
    → t.scroll_off ≤ length t.hosts - tui_max_host_rows rows
    → host_view rows t ≡ window (tui_max_host_rows rows) t.scroll_off t.hosts
unfolding host_view
host_view-window rows t c h =
    let page = tui_max_host_rows rows in
    let off_in : ltb (length t.hosts - page) t.scroll_off ≡ false = ground arith in
    elim (Bool-cases (ltb page (length t.hosts))) [
      | inl e ↦ rw (c, e) (rw (off_in) refl)
      | inr e ↦
          let none_above : t.scroll_off ≡ 0 = ground arith in
          rw (e) (
            sym (take-all page t.hosts (ground arith))
            ∙ ap (λ o. take page (drop o t.hosts)) (sym none_above))
    ]

scroll_bound :
    (key : ScrollKey) (rows : ℕ) (t : ScanTui)
    → (scroll key rows t).scroll_off ≤ length t.hosts - tui_max_host_rows rows
unfolding scroll
scroll_bound key rows t = ground arith

-- In the phases in which the table scrolls, and from an offset of at most the last full screen, the screen
-- that drawHostRows draws after a key is as full as the number of hosts allows, and lies to the one before
-- as the key says: up and down move by one row, and stay where there is none; page up and page down show the
-- rows right before and right behind those shown, or the first or the last screen where there is less than a
-- page; top and bottom show the first and the last screen.
pub host_view-scroll :
    (key : ScrollKey) (rows : ℕ) (t : ScanTui)
    → can_scroll t.phase ≡ true
    → t.scroll_off ≤ length t.hosts - tui_max_host_rows rows
    → (length (host_view rows (scroll key rows t)) ≡ min (tui_max_host_rows rows) (length t.hosts))
      × IsMoved key
          (tui_max_host_rows rows)
          t.scroll_off
          t.hosts
          (host_view rows t)
          (host_view rows (scroll key rows t))
unfolding scroll
host_view-scroll key rows t c h =
    let page = tui_max_host_rows rows in
    let u = scroll key rows t in
    let before = host_view-window rows t c h in
    let after : host_view rows u ≡ window page u.scroll_off t.hosts =
      host_view-window rows u c (scroll_bound key rows t) in
    (
      ap length after ∙ length-window page u.scroll_off t.hosts (scroll_bound key rows t),
      subst (λ a. IsMoved key page t.scroll_off t.hosts a (host_view rows u)) (sym before)
          (subst (IsMoved key page t.scroll_off t.hosts (window page t.scroll_off t.hosts))
            (sym after) (window-IsMoved key page t.scroll_off t.hosts (page_positive rows) h)),
    )
