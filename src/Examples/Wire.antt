-- ===== src/Examples/Wire.antt =====
-- The theorems on the wire formats at concrete inputs, and runs of their definitions.
use ipscry.Common.{
  ◌+◌, ◌≤◌, ◌<◌, ◌≡◌, refl, false, some, List, [], ◌∷◌, ◌++◌, arith, length, take, All, done, stuck,
  Ends, Safe, at, slice, Bytes,
}
use ipscry.Common.Text.{codes, trim_suffix, split, join}
use ipscry.Common.Trim.{trim_space}
use ipscry.Ber.{read_tlv, asn1_tlv, asn1_int, asn1_len, big_endian, keep_positive}
use ipscry.Ber.Total.{IsCut, read_tlv_total}
use ipscry.Ber.RoundTrip.{read_tlv-asn1_tlv}
use ipscry.Dns.{encode_dns_name, decode_dns_name, parse_dns_packet, build_dns_query}
use ipscry.Dns.Bounds.{Anything, IsSound, parse_dns_packet-Safe}
use ipscry.Dns.Pointers.{parse_dns_packet_diverges}
use ipscry.Dns.RoundTrip.{decode_dns_name-encode_dns_name}
use ipscry.Snmp.{parse_snmp_varbinds}
use ipscry.Snmp.Total.{parse_snmp_varbinds-Ends}
use ipscry.Snmp.RoundTrip.{response, stored, parse_snmp_varbinds-response}
use ipscry.Sanitize.{max_field_len, sanitize_one_line}
use ipscry.Sanitize.Bounds.{IsInLine, IsLongestValid, one_line, sanitize_one_line_lem}

-- `asn1Int(300)` and `asn1Int(200)`: the second one has a leading zero.
asn1_int_runs : (asn1_int 300 ≡ 2 ∷ 2 ∷ 1 ∷ 44 ∷ []) × (asn1_int 200 ≡ 2 ∷ 2 ∷ 0 ∷ 200 ∷ [])
unfolding asn1_int asn1_tlv keep_positive big_endian
asn1_int_runs = (refl, refl)

read_tlv-asn1_tlv_example :
    read_tlv (asn1_tlv 4 (1 ∷ 2 ∷ []) ++ (9 ∷ []))
    ≡ done (some (record { tag = 4; content = 1 ∷ 2 ∷ []; rest = 9 ∷ [] }))
read_tlv-asn1_tlv_example = read_tlv-asn1_tlv 4 (1 ∷ 2 ∷ []) (9 ∷ []) (omega arith)

-- A length in two bytes that the input does not hold.
read_tlv_total_example :
    Ends (IsCut (0x30 ∷ 0x82 ∷ 1 ∷ 0 ∷ 5 ∷ [])) (read_tlv (0x30 ∷ 0x82 ∷ 1 ∷ 0 ∷ 5 ∷ []))
read_tlv_total_example = read_tlv_total (0x30 ∷ 0x82 ∷ 1 ∷ 0 ∷ 5 ∷ [])

abbrev a_header : Bytes
a_header = 0 ∷ 7 ∷ 0 ∷ 0 ∷ 0 ∷ 1 ∷ 0 ∷ 0 ∷ 0 ∷ 0 ∷ 0 ∷ 0 ∷ []

parse_dns_packet-Safe_example :
    Safe (IsSound (a_header ++ (3 ∷ 97 ∷ []))) (parse_dns_packet 9 (a_header ++ (3 ∷ 97 ∷ [])))
parse_dns_packet-Safe_example = parse_dns_packet-Safe 9 (a_header ++ (3 ∷ 97 ∷ []))

parse_dns_packet_diverges_example :
    parse_dns_packet 100 (a_header ++ (0xc0 ∷ 0x0c ∷ 0 ∷ 1 ∷ 0 ∷ 1 ∷ [])) ≡ stuck
parse_dns_packet_diverges_example =
    parse_dns_packet_diverges 100 a_header (0 ∷ 1 ∷ 0 ∷ 1 ∷ []) refl (omega arith)

-- The white space before the name and the dot behind it are not written.
decode_dns_name-encode_dns_name_example :
    decode_dns_name 5 (a_header ++ (encode_dns_name (codes " pc.local.") ++ (1 ∷ []))) 12
    ≡ done (codes "pc.local", 12 + length (encode_dns_name (codes " pc.local.")))
unfolding trim_suffix trim_space split
decode_dns_name-encode_dns_name_example =
    decode_dns_name-encode_dns_name 5 a_header (codes " pc.local.") (1 ∷ []) (omega arith)
      (omega arith)

parse_dns_packet-query :
    parse_dns_packet 9 (build_dns_query 7 (codes "pc.local") 1 false)
    ≡ done (some (record { id = 7; flags = 0; records = [] }))
unfolding parse_dns_packet build_dns_query trim_suffix trim_space split slice at join
parse_dns_packet-query = refl

parse_snmp_varbinds-Ends_example : Ends Anything (parse_snmp_varbinds (0x30 ∷ 0x05 ∷ 1 ∷ []))
parse_snmp_varbinds-Ends_example = parse_snmp_varbinds-Ends (0x30 ∷ 0x05 ∷ 1 ∷ [])

abbrev vars : List (Bytes × Bytes)
vars = (0x2b ∷ 6 ∷ [], codes "switch-1") ∷ []

parse_snmp_varbinds-response_example :
    parse_snmp_varbinds (response 300 (codes "public") vars) ≡ done (stored [] vars)
unfolding asn1_int asn1_tlv asn1_len keep_positive big_endian
parse_snmp_varbinds-response_example =
    parse_snmp_varbinds-response 300 (codes "public") vars (omega arith) (omega arith)

sanitize_one_line_lem_example :
    All IsInLine (sanitize_one_line (codes " a\nb "))
    × (length (sanitize_one_line (codes " a\nb ")) ≤ max_field_len)
    × (length (one_line (codes " a\nb ")) ≤ max_field_len
        → sanitize_one_line (codes " a\nb ") ≡ one_line (codes " a\nb "))
    × (max_field_len < length (one_line (codes " a\nb "))
        → IsLongestValid max_field_len
            (take max_field_len (one_line (codes " a\nb ")))
            (sanitize_one_line (codes " a\nb ")))
sanitize_one_line_lem_example = sanitize_one_line_lem (codes " a\nb ")
