-- ===== src/Netbios.antt =====
-- The NetBIOS node status of main.go: nbnsNodeStatusQuery and parseNBNSName.
pub mod Bounds
pub mod Names
use ipscry.Common.{
  ℕ, zero, suc, ◌+◌, bit_and, Bool, not, ◌||◌, [], ◌∷◌, ◌++◌, ltb, leb, ◌==◌, if◌then◌else◌, length,
  replicate, Go, done, ◌>>=◌, at, slice, Bytes,
}
use ipscry.Common.Trim.{trim_right}
use ipscry.Dns.{uint16}
use ipscry.Sanitize.{sanitize_one_line}

unfoldable pub nbns_node_status_query : Bytes
nbns_node_status_query =
    (0 ∷ 0 ∷ 0 ∷ 0 ∷ 0 ∷ 1 ∷ 0 ∷ 0 ∷ 0 ∷ 0 ∷ 0 ∷ 0 ∷ [])
    ++ ((0x20 ∷ 0x43 ∷ 0x4b ∷ replicate 30 0x41) ++ (0 ∷ 0 ∷ 0x21 ∷ 0 ∷ 1 ∷ []))

abbrev pub rdata_start : ℕ
rdata_start = 56

-- `strings.TrimRight(s, " \x00")`
abbrev pub is_padding : ℕ → Bool
is_padding c = c == b' ' || c == 0

-- What an entry of 18 bytes says: its name, its suffix and whether it is a group's.
pub record NbnsEntry : Type 0 where
  pub name : Bytes
  pub suffix : ℕ
  pub group : Bool

unfoldable pub read_entry : Bytes → Go NbnsEntry
unfolding uint16
read_entry entry = do
  name ← slice entry 0 15
  suffix ← at entry 15
  flags ← uint16 entry 16
  done (record {
    name = trim_right is_padding name;
    suffix = suffix;
    group = not (bit_and flags 0x8000 == 0);
  })

-- The end of a round: go on, return the name, or go on with it as the fallback.
unfoldable pub use_entry : (Bytes → Go Bytes) → Bytes → NbnsEntry → Go Bytes
use_entry more fallback e =
    if e.group || length e.name == 0
    then more fallback
    else if e.suffix == 0
    then done (sanitize_one_line e.name)
    else more (if length fallback == 0 then e.name else fallback)

-- The loop over the names, `count` of them left
unfoldable pub scan_names : ℕ → Bytes → ℕ → Bytes → Go Bytes
unfolding read_entry use_entry
scan_names zero resp offset fallback = done (sanitize_one_line fallback)
scan_names (suc count) resp offset fallback =
    let round = do
      entry ← slice resp offset (offset + 18)
      e ← read_entry entry
      use_entry (scan_names count resp (offset + 18)) fallback e
    in if ltb (length resp) (offset + 18) then done (sanitize_one_line fallback) else round

unfoldable pub parse_nbns_name : Bytes → Go Bytes
unfolding uint16 scan_names
parse_nbns_name resp = if leb (length resp) rdata_start then done [] else do
  answers ← uint16 resp 6
  count ← at resp rdata_start
  if answers == 0 then done [] else scan_names count resp (rdata_start + 1) []
