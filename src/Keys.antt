-- ===== src/Keys.antt =====
-- The keys of the watch table: readKey, parseEscape and lineCommand of tui.go. A reader is the list
-- of the bytes that it will give, and `none` is its error at the end.
use ipscry.Common.{
  ℕ, ◌-◌, Bool, not, ◌&&◌, ◌||◌, Option, none, some, [], ◌∷◌, ltb, leb, ◌==◌, if◌then◌else◌, Bytes,
}
use ipscry.Common.Trim.{trim_space}

pub data TuiKey : Type 0 where
  key_none key_exit key_csv key_json key_txt key_rescan key_mac_format : TuiKey
  key_auto_ping key_auto_scan key_arp key_up key_down : TuiKey
  key_page_up key_page_down key_top key_bottom : TuiKey

-- A letter in either case, as in `case 'q', 'Q'`; `c` is the small one.
abbrev is_letter : ℕ → ℕ → Bool
is_letter c b = b == c || b == c - 32

-- The letters that `readKey` and `lineCommand` both know.
unfoldable pub letter_key : ℕ → TuiKey
letter_key b =
    if is_letter b'q' b
    then key_exit
    else if is_letter b'c' b
    then key_csv
    else if is_letter b'j' b
    then key_json
    else if is_letter b't' b
    then key_txt
    else if is_letter b'r' b
    then key_rescan
    else if is_letter b'm' b
    then key_mac_format
    else if is_letter b'p' b
    then key_auto_ping
    else if is_letter b's' b
    then key_auto_scan
    else if is_letter b'a' b
    then key_arp
    else key_none

-- The loop that reads on to the end of a numeric sequence.
unfoldable pub skip_sequence : Bytes → Option Bytes
skip_sequence [] = none
skip_sequence (c ∷ r) =
    let more = skip_sequence r in if c == b'~' || (leb b'A' c && leb c b'Z') then some r else more

unfoldable pub numeric_key : ℕ → TuiKey
numeric_key b =
    if b == b'5'
    then key_page_up
    else if b == b'6'
    then key_page_down
    else if b == b'1' || b == b'7'
    then key_top
    else if b == b'4' || b == b'8'
    then key_bottom
    else key_none

-- `parseEscape` behind its first byte
unfoldable pub final_key : Bytes → Option (TuiKey × Bytes)
unfolding skip_sequence numeric_key
final_key [] = none
final_key (b ∷ r) =
    if b == b'A'
    then some (key_up, r)
    else if b == b'B'
    then some (key_down, r)
    else if b == b'H'
    then some (key_top, r)
    else if b == b'F'
    then some (key_bottom, r)
    else if ltb b b'0' || ltb b'9' b
    then some (key_none, r)
    else elim (skip_sequence r) [ none ↦ none | some left ↦ some (numeric_key b, left) ]

unfoldable pub parse_escape : Bytes → Option (TuiKey × Bytes)
unfolding final_key
parse_escape [] = none
parse_escape (b ∷ r) =
    if not (b == b'[') && not (b == b'O') then some (key_none, r) else final_key r

unfoldable pub read_key : Bytes → Option (TuiKey × Bytes)
unfolding letter_key parse_escape
read_key [] = none
read_key (b ∷ r) =
    if b == b'k'
    then some (key_up, r)
    else if b == b'g'
    then some (key_top, r)
    else if b == b'G'
    then some (key_bottom, r)
    else if b == b' ' || b == b'f'
    then some (key_page_down, r)
    else if b == b'b'
    then some (key_page_up, r)
    else if b == 0x1b
    then parse_escape r
    else some (letter_key b, r)

abbrev first_key : Bytes → TuiKey
first_key [] = key_none
first_key (b ∷ s) = letter_key b

unfoldable pub line_command : Bytes → TuiKey
unfolding letter_key
line_command line = first_key (trim_space line)
