-- ===== src/Examples/Parsers.antt =====
-- The theorems on ports and NetBIOS names at concrete inputs, and runs of their definitions.
use ipscry.Common.{◌+◌, ◌-◌, ◌≡◌, refl, List, [], ◌∷◌, ◌++◌, arith, replicate, done}
use ipscry.Common.Text.{codes, text_eq, split, cut, to_lower}
use ipscry.Common.Trim.{trim_space}
use ipscry.Ports.{PortsError, ok, err, parse_ports, port_profile}
use ipscry.Ports.Covers.{IsAnswer, first_error, any_covers, parse_ports-IsAnswer}
use ipscry.Sanitize.{sanitize_one_line}
use ipscry.Netbios.{parse_nbns_name}
use ipscry.Netbios.Names.{NameSlot, encode_slots, computer_name, parse_nbns_name_lem}

parse_ports-runs :
    (parse_ports to_lower [] (codes "443, 20-22,22") ≡ ok (20 ∷ 21 ∷ 22 ∷ 443 ∷ []))
    × (parse_ports to_lower [] (codes "80,70000") ≡ err (PortsError.invalid_port (codes "70000")))
    × (parse_ports to_lower [] (codes ",") ≡ err PortsError.no_port)
unfolding parse_ports trim_space to_lower split cut text_eq ipscry.Common.Atoi.atoi
parse_ports-runs = (refl, refl, refl)

parse_ports-IsAnswer_example :
    IsAnswer
      (first_error (split b',' (trim_space (codes "443,20-22"))))
      (any_covers (split b',' (trim_space (codes "443,20-22"))))
      (parse_ports to_lower [] (codes "443,20-22"))
unfolding trim_space to_lower port_profile text_eq
parse_ports-IsAnswer_example = parse_ports-IsAnswer to_lower [] (codes "443,20-22") refl refl

abbrev slots : List NameSlot
slots =
    record { raw = codes "WORKGROUP      "; suffix = 0; flags_hi = 0x84; flags_lo = 0 }
    ∷ record { raw = codes "PC-7           "; suffix = 0x20; flags_hi = 4; flags_lo = 0 }
    ∷ record { raw = codes "PC-8           "; suffix = 0; flags_hi = 4; flags_lo = 0 }
    ∷ []

parse_nbns_name_lem_example :
    parse_nbns_name
      ((replicate 6 0 ++ (0 ∷ 1 ∷ replicate 48 0)) ++ (3 ∷ (encode_slots slots ++ (9 ∷ []))))
    ≡ done (sanitize_one_line (computer_name slots))
parse_nbns_name_lem_example =
    parse_nbns_name_lem slots (replicate 6 0) (replicate 48 0) (9 ∷ []) 0 1
      (refl, (refl, (refl, tt))) refl refl (omega arith)
