-- ===== src/Snmp.antt =====
-- SNMP v2c over BER: buildSNMPGet, parseSNMPVarbinds and snmpGet of main.go.
pub mod Total
pub mod RoundTrip
use ipscry.Common.{
  ℕ, zero, suc, ◌+◌, ◌-◌, ◌/◌, ◌%◌, not, Option, none, some, List, [], ◌∷◌, ◌++◌, ltb, ◌==◌,
  if◌then◌else◌, length, Go, done, stuck, ◌>>=◌, Bytes,
}
use ipscry.Common.Text.{text_eq}
use ipscry.Ber.{Tlv, read_tlv, asn1_tlv, asn1_int}
use ipscry.Sanitize.{sanitize_one_line}

abbrev pub oid_sys_descr : Bytes
oid_sys_descr = 0x2b ∷ 0x06 ∷ 0x01 ∷ 0x02 ∷ 0x01 ∷ 0x01 ∷ 0x01 ∷ 0x00 ∷ []

abbrev pub oid_sys_name : Bytes
oid_sys_name = 0x2b ∷ 0x06 ∷ 0x01 ∷ 0x02 ∷ 0x01 ∷ 0x01 ∷ 0x05 ∷ 0x00 ∷ []

-- The loop over the OIDs: SEQUENCE { OID, NULL } for each.
unfoldable pub varbinds : List Bytes → Bytes
varbinds [] = []
varbinds (oid ∷ oids) = asn1_tlv 0x30 (asn1_tlv 0x06 oid ++ (0x05 ∷ 0x00 ∷ [])) ++ varbinds oids

unfoldable pub build_snmp_get : ℕ → Bytes → List Bytes → Bytes
unfolding varbinds
build_snmp_get req_id community oids =
    let pdu_body =
      asn1_int req_id ++ (asn1_int 0 ++ (asn1_int 0 ++ asn1_tlv 0x30 (varbinds oids))) in
    asn1_tlv 0x30 (asn1_int 1 ++ (asn1_tlv 0x04 community ++ asn1_tlv 0xa0 pdu_body))

-- hex.EncodeToString
abbrev hex_digit : ℕ → ℕ
hex_digit n = if ltb n 10 then b'0' + n else b'a' + (n - 10)

unfoldable pub hex_encode : Bytes → Bytes
hex_encode [] = []
hex_encode (x ∷ s) = hex_digit (x / 16) ∷ hex_digit (x % 16) ∷ hex_encode s

-- `map[string]string`: the newest entry first; a read finds it before older ones.
abbrev pub Vars : Type 0
Vars = List (Bytes × Bytes)

-- `vars[key]`, with "" for a missing key
unfoldable pub get_var : Bytes → Vars → Bytes
get_var key [] = []
get_var key ((k, v) ∷ vars) = if text_eq k key then v else get_var key vars

-- The value behind an OID: an OCTET STRING is stored, anything else is passed over.
unfoldable pub add_value : Vars → Bytes → Option Tlv → Vars
add_value out oid none = out
add_value out oid (some value) =
    if value.tag == 0x04 then (hex_encode oid, sanitize_one_line value.content) ∷ out else out

unfoldable pub add_varbind : Vars → Option Tlv → Go Vars
unfolding add_value
add_varbind out none = done out
add_varbind out (some oid) =
    if not (oid.tag == 0x06)
    then done out
    else do value ← read_tlv oid.rest; done (add_value out oid.content value)

-- One entry of the list; `none` is the break. `more` is the rest of the loop.
unfoldable pub walk_step : (Bytes → Vars → Go Vars) → Vars → Option Tlv → Go Vars
unfolding add_varbind
walk_step more out none = done out
walk_step more out (some vb) = do
  oid ← read_tlv vb.content
  out' ← add_varbind out oid
  more vb.rest out'

-- `for len(varbindList) > 0`
unfoldable pub walk : ℕ → Bytes → Vars → Go Vars
unfolding walk_step
walk fuel [] out = done out
walk zero (x ∷ list) out = stuck
walk (suc fuel) (x ∷ list) out = do vb ← read_tlv (x ∷ list); walk_step (walk fuel) out vb

-- A `readTLV` of which `!ok` returns the empty map.
unfoldable pub descend : Bytes → (Tlv → Go Vars) → Go Vars
descend b next = do found ← read_tlv b; elim found [ none ↦ done [] | some t ↦ next t ]

-- Each round takes two bytes at least, so the length of the response is fuel enough.
unfoldable pub parse_snmp_varbinds : Bytes → Go Vars
parse_snmp_varbinds resp = descend resp λ message. descend message.content λ version.
    descend version.rest λ community. descend community.rest λ pdu.
      descend pdu.content λ request_id. descend request_id.rest λ error_status.
        descend error_status.rest
          λ error_index. descend error_index.rest λ list. walk (length resp) list.content []

-- The whole query; `exchange` sends a datagram and returns the response, or nothing on any error.
unfoldable pub snmp_get : (Bytes → Option Bytes) → ℕ → Bytes → Go (Bytes × Bytes)
unfolding build_snmp_get parse_snmp_varbinds get_var
snmp_get exchange req_id community =
    elim (exchange (build_snmp_get req_id community (oid_sys_name ∷ oid_sys_descr ∷ []))) [
      | none ↦ done ([], [])
      | some resp ↦ do
        vars ← parse_snmp_varbinds resp
        done (get_var (hex_encode oid_sys_name) vars, get_var (hex_encode oid_sys_descr) vars)
    ]
