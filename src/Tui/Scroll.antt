-- ===== src/Tui/Scroll.antt =====
-- The viewport of the watch table: tuiMaxHostRows, scroll and the choice of rows in drawHostRows of tui.go.
pub mod Window
pub mod Shown
use ipscry.Common.{
  ℕ, ◌+◌, ◌-◌, Bool, ◌&&◌, ◌||◌, List, ltb, if◌then◌else◌, length, take, drop, Bytes,
}
use ipscry.Common.Text.{codes, text_eq}
use ipscry.Hosts.{HostResult}
use ipscry.Tui.{ScanTui}

-- The keys that `scroll` tells apart; it is called with these only.
pub data ScrollKey : Type 0 where
  key_up key_down key_page_up key_page_down key_top key_bottom : ScrollKey

unfoldable pub tui_max_host_rows : ℕ → ℕ
tui_max_host_rows rows = if ltb 1 (rows - 7) then rows - 7 else 1

-- The switch. The offset is never below 0, so a step up that would leave it there is the step to 0
-- that the last test of `scroll` makes of it.
abbrev pub scrolled : ScrollKey → ℕ → ℕ → ℕ → ℕ
scrolled key_up max_rows max_off off = off - 1
scrolled key_down max_rows max_off off = off + 1
scrolled key_page_up max_rows max_off off = off - max_rows
scrolled key_page_down max_rows max_off off = off + max_rows
scrolled key_top max_rows max_off off = 0
scrolled key_bottom max_rows max_off off = max_off

unfoldable pub scroll : ScrollKey → ℕ → ScanTui → ScanTui
unfolding tui_max_host_rows
scroll key rows t =
    let max_rows = tui_max_host_rows rows in
    let max_off = length t.hosts - max_rows in
    let off = scrolled key max_rows max_off t.scroll_off in
    record t { scroll_off = if ltb max_off off then max_off else off }

-- In these phases the table scrolls.
abbrev pub can_scroll : Bytes → Bool
can_scroll phase = text_eq phase (codes "watch") || text_eq phase (codes "done")

-- The hosts that `drawHostRows` draws; the offset is cut so that the slice lies in the list.
unfoldable pub host_view : ℕ → ScanTui → List HostResult
unfolding tui_max_host_rows text_eq
host_view rows t =
    let max_rows = tui_max_host_rows rows in
    let total = length t.hosts in
    let max_off = total - max_rows in
    let cut = if ltb max_off t.scroll_off then max_off else t.scroll_off in
    let off = if can_scroll t.phase && ltb max_rows total then cut else 0 in
    if ltb max_rows total then take max_rows (drop off t.hosts) else t.hosts
