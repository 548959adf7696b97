-- ===== src/Ssdp/Headers.antt =====
-- The headers of an SSDP response.
use ipscry.Common.{
  ◌≡◌, refl, sym, ◌∙◌, true, false, not, ◌&&◌, Option, none, some, List, [], ◌∷◌, arith, ◌==◌,
  if◌then◌else◌, length, Bytes,
}
use ipscry.Common.Text.{codes, text_eq, text_eq_iff, has_prefix}
use mathlib.Core.Path.{subst}
use ipscry.Ssdp.{
  SsdpResponse, keep_first, split_lines, read_line, use_header, use_lines, parse_ssdp_response,
  no_response,
}

-- A line's value for a key, or what the lines behind it give
unfoldable pub value_or : Bytes → Option (Bytes × Bytes) → Bytes → Bytes
value_or key none rest = rest
value_or key (some (k, val)) rest = if text_eq k key && not (length val == 0) then val else rest

-- The value of the first line with the key and a value that is not empty
unfoldable pub first_value : (Bytes → Option (Bytes × Bytes)) → Bytes → List Bytes → Bytes
unfolding value_or
first_value read key [] = []
first_value read key (line ∷ lines) = value_or key (read line) (first_value read key lines)

other_key : (k a b : Bytes) → text_eq a b ≡ false → text_eq k a ≡ true → text_eq k b ≡ false
other_key k a b ne e = subst (λ x. text_eq x b ≡ false) (sym ((text_eq_iff k a).0 e)) ne

keep_nothing : (old : Bytes) → keep_first old [] ≡ old
keep_nothing [] = refl
keep_nothing (c ∷ old) = ground arith

module _ (upper : Bytes → Bytes) (k val : Bytes) (r : SsdpResponse) (rest : Bytes) where
  abbrev used : SsdpResponse
  used = use_header upper (some (k, val)) r

  use-server :
      keep_first r.server (value_or (codes "SERVER") (some (k, val)) rest)
      ≡ keep_first used.server rest
  unfolding use_header value_or
  use-server = ground arith

  use-st : keep_first r.st (value_or (codes "ST") (some (k, val)) rest) ≡ keep_first used.st rest
  unfolding use_header value_or
  use-st = ground (arith, other_key k (codes "SERVER") (codes "ST") (unfold text_eq in refl))

  use-location :
      keep_first r.location (value_or (codes "LOCATION") (some (k, val)) rest)
      ≡ keep_first used.location rest
  unfolding use_header value_or
  use-location = ground (
    arith,
    other_key k (codes "SERVER") (codes "LOCATION") (unfold text_eq in refl),
    other_key k (codes "ST") (codes "LOCATION") (unfold text_eq in refl),
  )

  use-usn :
      keep_first r.usn (value_or (codes "USN") (some (k, val)) rest) ≡ keep_first used.usn rest
  unfolding use_header value_or
  use-usn = ground (
    arith,
    other_key k (codes "SERVER") (codes "USN") (unfold text_eq in refl),
    other_key k (codes "ST") (codes "USN") (unfold text_eq in refl),
    other_key k (codes "LOCATION") (codes "USN") (unfold text_eq in refl),
  )

-- The response holds what `use_lines` began with, and else the first values of the lines.
abbrev Holds : (Bytes → Option (Bytes × Bytes)) → SsdpResponse → List Bytes → SsdpResponse → Type 0
Holds read r lines out =
    (out.server ≡ keep_first r.server (first_value read (codes "SERVER") lines))
    × (out.st ≡ keep_first r.st (first_value read (codes "ST") lines))
    × (out.location ≡ keep_first r.location (first_value read (codes "LOCATION") lines))
    × (out.usn ≡ keep_first r.usn (first_value read (codes "USN") lines))

module _ (upper : Bytes → Bytes) where
  step-Holds :
      (o : Option (Bytes × Bytes)) (line : Bytes) (lines : List Bytes) (r out : SsdpResponse)
      → read_line upper line ≡ o
      → Holds (read_line upper) (use_header upper o r) lines out
      → Holds (read_line upper) r (line ∷ lines) out
  unfolding first_value
  step-Holds none line lines r out e h = unfold use_header in rw (e) h
  step-Holds (some (k, val)) line lines r out e (a, b, c, d) = rw (e) (
    a ∙ sym (use-server upper k val r _),
    b ∙ sym (use-st upper k val r _),
    c ∙ sym (use-location upper k val r _),
    d ∙ sym (use-usn upper k val r _),
  )

  use_lines-Holds :
      (lines : List Bytes) (r : SsdpResponse)
      → Holds (read_line upper) r lines (use_lines upper lines r)
  unfolding use_lines first_value
  use_lines-Holds [] r = (
    sym (keep_nothing r.server),
    sym (keep_nothing r.st),
    sym (keep_nothing r.location),
    sym (keep_nothing r.usn),
  )
  use_lines-Holds (line ∷ lines) r =
      step-Holds (read_line upper line) line lines r _ refl
        (use_lines-Holds lines (use_header upper (read_line upper line) r))

  -- On a response that begins as HTTP, parseSSDPResponse returns for SERVER, ST, LOCATION and USN the value of
  -- the first line with that key and a value that is not empty, and nothing where there is none.
  pub parse_ssdp_response-first_value :
      (text : Bytes)
      → has_prefix (codes "HTTP/1.") text ≡ true
      → ((parse_ssdp_response upper text).server
          ≡ first_value (read_line upper) (codes "SERVER") (split_lines [] text))
        × ((parse_ssdp_response upper text).st
            ≡ first_value (read_line upper) (codes "ST") (split_lines [] text))
        × ((parse_ssdp_response upper text).location
            ≡ first_value (read_line upper) (codes "LOCATION") (split_lines [] text))
        × ((parse_ssdp_response upper text).usn
            ≡ first_value (read_line upper) (codes "USN") (split_lines [] text))
  unfolding parse_ssdp_response
  parse_ssdp_response-first_value text h =
      rw (h) (use_lines-Holds (split_lines [] text) (no_response upper))
