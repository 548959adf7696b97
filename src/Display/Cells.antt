-- ===== src/Display/Cells.antt =====
-- The shape of the printed tables.
use ipscry.Common.{
  ℕ, ◌-◌, ◌≤◌, ◌≡◌, false, not, List, [], ◌∷◌, arith, length, take, All, length-append, length-take,
  Bytes,
}
use ipscry.Common.Text.{codes, text_eq}
use ipscry.Hosts.{HostResult, is_empty}
use ipscry.Common.Order.{any}
use ipscry.Display.{Widths, Shown, trunc}

-- A table: every row has as many cells as the first.
abbrev pub IsTable : List (List Bytes) → Type 0
IsTable [] = Unit
IsTable (header ∷ rows) = All (λ row. length row ≡ length header) rows

-- The text is cut at the width.
trunc-length : (s : Bytes) (max : ℕ) → length (trunc s max) ≤ max
unfolding trunc
trunc-length s max = ground (
  arith,
  length-take {0} max s,
  length-take {0} (max - 3) s,
  length-append {0} (take (max - 3) s) (codes "..."),
)

-- Two lists of cells have one length, whatever the cells.
abbrev Alike : List Bytes → List Bytes → Type 0
Alike a b = length a ≡ length b

module _ (w : Widths) where
  -- The columns that some host needs
  abbrev pub columns : List HostResult → Shown w
  columns hosts = record {
    vendor = any (λ h. not (is_empty h.mac_vendor)) hosts;
    status = any (λ h. text_eq h.status (codes "arp")) hosts;
    arp = any (λ h. not (is_empty h.arp_type)) hosts;
  }

  abbrev none_shown : Shown w
  none_shown = record { vendor = false; status = false; arp = false }
