-- ===== src/Catalog/Defaults.antt =====
-- The ports that are scanned where none are given: those of the embedded file.
use ipscry.Common.{
  ℕ, ◌≡◌, refl, ◌∙◌, inl, inr, false, ◌||◌, Option, none, some, List, [], ◌∷◌, arith, ltb, ◌==◌,
  Bool-cases, Option-cases, Bytes,
}
use ipscry.Common.Trim.{trim_space}
use mathlib.Core.Path.{subst}
use ipscry.Common.Int.{pos, negsuc}
use ipscry.Common.Atoi.{atoi}
use ipscry.Ports.{has, parse_ports}
use ipscry.Ports.Valid.{
  IsPort, AreNew, ArePorts, Gives, All-sort, sort-IsAscending, parse_ports-ArePorts,
}
use ipscry.Catalog.{
  PortEntry, put_port, keys, add_entry, add_records, parse_ports_csv, sorted_port_keys,
  default_scan_ports,
}

module _ {V : Type 0} where
  has-keys :
      (k p : ℕ) (v : V) (m : List (ℕ × V))
      → has k (keys (put_port p v m)) ≡ (p == k || has k (keys m))
  unfolding put_port keys has
  has-keys k p v [] = refl
  has-keys k p v ((q, w) ∷ m) = elim (Bool-cases (q == p)) [
    | inl e ↦ rw (e) (ground arith)
    | inr e ↦ rw (e) (ground (arith, has-keys k p v m))
  ]

  keys-AreNew :
      (p : ℕ) (v : V) (m : List (ℕ × V))
      → IsPort p
      → AreNew (keys m)
      → AreNew (keys (put_port p v m))
  unfolding put_port keys has
  keys-AreNew p v [] h a = ((h, tt), (refl, tt))
  keys-AreNew p v ((q, w) ∷ m) h ((k, a), (new, d)) = elim (Bool-cases (q == p)) [
    | inl e ↦
        let same : q ≡ p = ground arith in
        rw (e) ((h, a), (subst (λ x. has x (keys m) ≡ false) same new, d))
    | inr e ↦
        let (a', d') = keys-AreNew p v m h (a, d) in
        rw (e) ((k, a'), (has-keys q p v m ∙ (ground arith), d'))
  ]

-- A record that names a port number, or none
add_entry-AreNew :
    (lower : Bytes → Bytes) (r : List Bytes) (out : List (ℕ × PortEntry))
    → AreNew (keys out)
    → AreNew (keys (add_entry lower r out))
unfolding add_entry
add_entry-AreNew lower [] out h = h
add_entry-AreNew lower (number ∷ []) out h = h
add_entry-AreNew lower (number ∷ service ∷ more) out h =
    elim (Option-cases (atoi (trim_space number))) [
      | inl e ↦ rw (e, add_entry) h
      | inr (negsuc n, e) ↦ rw (e, add_entry) h
      | inr (pos port, e) ↦ elim (Bool-cases (port == 0 || ltb 65535 port)) [
        | inl bad ↦ rw (e, add_entry) (rw (bad) h)
        | inr good ↦
            rw (e, add_entry) (rw (good) (keys-AreNew port _ out (ground arith, ground arith) h))
      ]
    ]

add_records-AreNew :
    (lower : Bytes → Bytes) (records : List (List Bytes)) (out : List (ℕ × PortEntry))
    → AreNew (keys out)
    → AreNew (keys (add_records lower records out))
unfolding add_records
add_records-AreNew lower [] out h = h
add_records-AreNew lower (r ∷ records) out h =
    add_records-AreNew lower records (add_entry lower r out) (add_entry-AreNew lower r out h)

parse_ports_csv-AreNew :
    (lower : Bytes → Bytes) (records : Option (List (List Bytes)))
    → AreNew (keys (parse_ports_csv lower records))
unfolding parse_ports_csv keys
parse_ports_csv-AreNew lower none = (tt, tt)
parse_ports_csv-AreNew lower (some []) = (tt, tt)
parse_ports_csv-AreNew lower (some (header ∷ records)) =
    add_records-AreNew lower records [] (tt, tt)

-- Whatever the embedded file holds and whatever the input, the ports that parsePorts returns are between 1
-- and 65,535, in ascending order and each once.
pub parse_ports-default_scan_ports :
    (lower : Bytes → Bytes) (records : Option (List (List Bytes))) (raw : Bytes)
    → Gives ArePorts (parse_ports lower (default_scan_ports lower records) raw)
unfolding default_scan_ports sorted_port_keys
parse_ports-default_scan_ports lower records raw =
    let (a, d) = parse_ports_csv-AreNew lower records in
    let ports = keys (parse_ports_csv lower records) in
    parse_ports-ArePorts lower (default_scan_ports lower records) raw
      (All-sort IsPort ports a, sort-IsAscending ports d)
