-- ===== src/Macs.antt =====
-- MAC addresses: macHexDigits, initMACVendors and macVendor of dataset.go, validARPMAC and formatMAC of
-- main.go. The records of the embedded list of vendors are an argument.
pub mod Digits
use ipscry.Common.{
  ℕ, ◌+◌, ◌-◌, ◌*◌, ◌%◌, Bool, false, not, ◌&&◌, ◌||◌, Option, none, some, List, [], ◌∷◌, ltb, leb,
  ◌==◌, if◌then◌else◌, length, take, drop, Bytes,
}
use ipscry.Common.Text.{codes, text_eq, join, to_lower}
use ipscry.Common.Maps.{find, put}

-- The digit that a rune stands for; a byte of a longer rune is 0x80 or more.
unfoldable pub mac_digit : ℕ → Option ℕ
mac_digit c =
    if leb b'0' c && leb c b'9'
    then some c
    else if leb b'A' c && leb c b'F'
    then some c
    else if leb b'a' c && leb c b'f'
    then some (c - 32)
    else none

unfoldable pub mac_hex_digits : Bytes → Bytes
unfolding mac_digit
mac_hex_digits [] = []
mac_hex_digits (c ∷ mac) =
    let rest = mac_hex_digits mac in elim (mac_digit c) [ none ↦ rest | some d ↦ d ∷ rest ]

-- The three tables
pub record Ouis : Type 0 where
  pub oui24 : List (Bytes × Bytes)
  pub oui28 : List (Bytes × Bytes)
  pub oui36 : List (Bytes × Bytes)

unfoldable pub add_vendor : Ouis → List Bytes → Ouis
unfolding put
add_vendor m (prefix ∷ vendor ∷ more) =
    if length prefix == 6
    then record m { oui24 = put prefix vendor m.oui24 }
    else if length prefix == 7
    then record m { oui28 = put prefix vendor m.oui28 }
    else if length prefix == 9
    then record m { oui36 = put prefix vendor m.oui36 }
    else m
add_vendor m _ = m

unfoldable pub add_vendors : List (List Bytes) → Ouis → Ouis
unfolding add_vendor
add_vendors [] m = m
add_vendors (r ∷ records) m = add_vendors records (add_vendor m r)

-- The records that are read before an error or the end
unfoldable pub init_mac_vendors : List (List Bytes) → Ouis
unfolding add_vendors
init_mac_vendors records = add_vendors records (record { oui24 = []; oui28 = []; oui36 = [] })

-- A round of the loop over the lengths, with what the next rounds find
unfoldable pub vendor_at : ℕ → List (Bytes × Bytes) → Bytes → Bytes → Bytes
unfolding find
vendor_at n m hex other =
    if ltb (length hex) n
    then other
    else elim (find (take n hex) m) [ none ↦ other | some vendor ↦ vendor ]

unfoldable pub hex_vendor : Ouis → Bytes → Bytes
unfolding vendor_at
hex_vendor m hex =
    if ltb (length hex) 6
    then []
    else vendor_at 9 m.oui36 hex (vendor_at 7 m.oui28 hex (vendor_at 6 m.oui24 hex []))

unfoldable pub mac_vendor : Ouis → Bytes → Bytes
unfolding mac_hex_digits hex_vendor
mac_vendor m mac = hex_vendor m (mac_hex_digits mac)

-- `strconv.ParseUint(hex[0:2], 16, 8)`, of two digits
unfoldable pub digit_value : ℕ → ℕ
digit_value d = if leb d b'9' then d - b'0' else d - 55

unfoldable pub first_octet : Bytes → ℕ
unfolding digit_value
first_octet (a ∷ b ∷ hex) = digit_value a * 16 + digit_value b
first_octet _ = 0

unfoldable pub valid_arp_mac : Bytes → Bool
unfolding mac_hex_digits first_octet
valid_arp_mac mac =
    let hex = mac_hex_digits mac in
    if not (length hex == 12)
      || (text_eq hex (codes "000000000000") || text_eq hex (codes "FFFFFFFFFFFF"))
    then false
    else not (first_octet hex % 2 == 1)

-- `hex[i : i+2]` of twelve digits
abbrev pub octet : ℕ → Bytes → Bytes
octet i hex = take 2 (drop i hex)

unfoldable pub with_separator : Bytes → Bytes → Bytes
with_separator sep hex =
    join sep
      (octet 0 hex ∷ octet 2 hex ∷ octet 4 hex ∷ octet 6 hex ∷ octet 8 hex ∷ octet 10 hex ∷ [])

-- `format` is one of the three that parseScanArgs accepts, or anything.
unfoldable pub format_mac : Bytes → Bytes → Bytes
unfolding mac_hex_digits with_separator to_lower
format_mac mac format =
    let hex = to_lower (mac_hex_digits mac) in
    if length mac == 0
    then []
    else if not (length hex == 12)
    then mac
    else if text_eq format (codes "none")
    then hex
    else with_separator (if text_eq format (codes "dash") then codes "-" else codes ":") hex
