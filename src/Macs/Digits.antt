-- ===== src/Macs/Digits.antt =====
-- What formatMAC keeps of an address.
use ipscry.Common.{
  ℕ, suc, ◌+◌, ◌-◌, ◌≤◌, ◌≡◌, refl, sym, ap, ◌∙◌, inl, inr, Bool, true, false, ◌&&◌, Option, none,
  some, [], ◌∷◌, ◌++◌, arith, leb, ◌==◌, if◌then◌else◌, Bool-cases, Option-cases, length, drop,
  take-all, length-drop, take-append-drop, drop-drop, Bytes,
}
use ipscry.Common.Text.{codes, text_eq, join, lower_byte, to_lower}
use mathlib.Core.Path.{subst}
use ipscry.Macs.{
  mac_digit, mac_hex_digits, Ouis, hex_vendor, mac_vendor, octet, with_separator, format_mac,
}

hex-append : (a b : Bytes) → mac_hex_digits (a ++ b) ≡ mac_hex_digits a ++ mac_hex_digits b
unfolding mac_hex_digits
hex-append [] b = refl
hex-append (c ∷ a) b = elim (Option-cases (mac_digit c)) [
  | inl e ↦ rw (e, mac_hex_digits) (hex-append a b)
  | inr (d, e) ↦ rw (e, mac_hex_digits) (ap (λ r. d ∷ r) (hex-append a b))
]

abbrev IsDigit : ℕ → Type 0
IsDigit d = mac_digit (lower_byte d) ≡ some d

abbrev IfDigit : Option ℕ → Type 0
IfDigit none = Unit
IfDigit (some d) = IsDigit d

number-IsDigit : (c : ℕ) → 48 ≤ c → c ≤ 57 → IsDigit c
unfolding mac_digit lower_byte
number-IsDigit c h k = ground arith

letter-IsDigit : (c : ℕ) → 65 ≤ c → c ≤ 70 → IsDigit c
unfolding mac_digit lower_byte
letter-IsDigit c h k =
    let big : (leb 65 c && leb c 90) ≡ true = ground arith in
    let a : (leb 48 (c + 32) && leb (c + 32) 57) ≡ false = ground arith in
    let b : (leb 65 (c + 32) && leb (c + 32) 70) ≡ false = ground arith in
    let d : (leb 97 (c + 32) && leb (c + 32) 102) ≡ true = ground arith in
    let e : c + 32 - 32 ≡ c = omega arith in rw (big) (rw (a, b, d, e) refl)

mac_digit-IsDigit : (c : ℕ) → IfDigit (mac_digit c)
unfolding mac_digit
mac_digit-IsDigit c = elim (Bool-cases (leb 48 c && leb c 57)) [
  | inl e ↦ rw (e) (number-IsDigit c (ground arith) (ground arith))
  | inr e ↦ elim (Bool-cases (leb 65 c && leb c 70)) [
    | inl f ↦ rw (e, f) (letter-IsDigit c (ground arith) (ground arith))
    | inr f ↦ elim (Bool-cases (leb 97 c && leb c 102)) [
      | inl g ↦ rw (e, f, g) (letter-IsDigit (c - 32) (ground arith) (ground arith))
      | inr g ↦ rw (e, f, g) tt
    ]
  ]
]

-- Reading the digits again, in small letters, gives the same.
hex-to_lower : (mac : Bytes) → mac_hex_digits (to_lower (mac_hex_digits mac)) ≡ mac_hex_digits mac
unfolding mac_hex_digits to_lower
hex-to_lower [] = refl
hex-to_lower (c ∷ mac) = elim (Option-cases (mac_digit c)) [
  | inl e ↦ rw (e, mac_hex_digits) (hex-to_lower mac)
  | inr (d, e) ↦
      let small : mac_digit (lower_byte d) ≡ some d = subst IfDigit e (mac_digit-IsDigit c) in
      rw (e, mac_hex_digits) (rw (small, mac_hex_digits) (ap (λ r. d ∷ r) (hex-to_lower mac)))
]

octet-step : (i : ℕ) (hex : Bytes) → octet i hex ++ drop (i + 2) hex ≡ drop i hex
octet-step i hex =
    ap (λ r. octet i hex ++ r) (sym (drop-drop 2 i hex)) ∙ take-append-drop 2 (drop i hex)

octets :
    (hex : Bytes)
    → length hex ≡ 12
    → octet 0 hex
        ++ (octet 2 hex ++ (octet 4 hex ++ (octet 6 hex ++ (octet 8 hex ++ octet 10 hex))))
      ≡ hex
octets hex h =
    let last : octet 10 hex ≡ drop 10 hex =
      take-all 2 (drop 10 hex) (omega (arith, length-drop {0} 10 hex)) in
    rw (last, octet-step 8 hex, octet-step 6 hex, octet-step 4 hex, octet-step 2 hex)
      (octet-step 0 hex)

without_separator :
    (sep a r r' : Bytes)
    → mac_hex_digits sep ≡ []
    → mac_hex_digits r ≡ mac_hex_digits r'
    → mac_hex_digits (a ++ (sep ++ r)) ≡ mac_hex_digits (a ++ r')
without_separator sep a r r' e h =
    hex-append a (sep ++ r)
    ∙ ap (λ x. mac_hex_digits a ++ x) (hex-append sep r ∙ rw (e) h)
    ∙ sym (hex-append a r')

separated :
    (sep hex : Bytes)
    → mac_hex_digits sep ≡ []
    → length hex ≡ 12
    → mac_hex_digits (with_separator sep hex) ≡ mac_hex_digits hex
unfolding with_separator join
separated sep hex e h =
    without_separator sep (octet 0 hex) _ _ e (
      without_separator sep (octet 2 hex) _ _ e (
        without_separator sep (octet 4 hex) _ _ e (
          without_separator sep (octet 6 hex) _ _ e
            (without_separator sep (octet 8 hex) (octet 10 hex) (octet 10 hex) e refl))))
    ∙ ap mac_hex_digits (octets hex h)

separator-digits : (dash : Bool) → mac_hex_digits (if dash then codes "-" else codes ":") ≡ []
unfolding mac_hex_digits mac_digit
separator-digits true = refl
separator-digits false = refl

hex-format_mac : (mac format : Bytes) → mac_hex_digits (format_mac mac format) ≡ mac_hex_digits mac
unfolding format_mac
hex-format_mac [] format = refl
hex-format_mac (c ∷ mac) format =
    let hex = to_lower (mac_hex_digits (c ∷ mac)) in
    let filled : (suc (length mac) == 0) ≡ false = ground arith in
    elim (Bool-cases (length hex == 12)) [
      | inr e ↦ rw (filled, e) refl
      | inl e ↦ elim (Bool-cases (text_eq format (codes "none"))) [
        | inl f ↦ rw (filled, e, f) (hex-to_lower (c ∷ mac))
        | inr f ↦
            let sep = if text_eq format (codes "dash") then codes "-" else codes ":" in
            rw (filled, e, f)
              (separated sep hex (separator-digits (text_eq format (codes "dash"))) (ground arith)
                ∙ hex-to_lower (c ∷ mac))
      ]
    ]

-- The digits of an address are those of what formatMAC makes of it, in every format, and so is its vendor.
pub mac_vendor-format_mac :
    (m : Ouis) (mac format : Bytes)
    → (mac_hex_digits (format_mac mac format) ≡ mac_hex_digits mac)
      × (mac_vendor m (format_mac mac format) ≡ mac_vendor m mac)
unfolding mac_vendor
mac_vendor-format_mac m mac format =
    let same = hex-format_mac mac format in (same, ap (hex_vendor m) same)
