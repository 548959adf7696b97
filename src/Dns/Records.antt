-- ===== src/Dns/Records.antt =====
-- The record readers of dnswire.go: dnsRecordIPv4, dnsRecordIPv6, dnsRecordName and dnsRecordTXT. The text
-- of an IPv6 address, which the net package writes, is an argument.
use ipscry.Common.{
  ℕ, zero, suc, ◌+◌, not, ◌&&◌, ◌||◌, List, [], ◌∷◌, map, ltb, leb, ◌==◌, if◌then◌else◌, length, Go,
  done, stuck, ◌>>=◌, at, slice, Bytes,
}
use ipscry.Common.Text.{codes, trim_suffix, join}
use ipscry.Sanitize.{sanitize_one_line}
use ipscry.Csv.{itoa}
use ipscry.Dns.{
  DnsRecord, dns_type_a, dns_type_aaaa, dns_type_ptr, dns_type_srv, dns_type_txt, decode_dns_name,
}

-- `net.IP(data).String()` of four bytes
unfoldable pub ipv4_text : Bytes → Bytes
unfolding itoa join
ipv4_text ip = join (codes ".") (map itoa ip)

unfoldable pub dns_record_ipv4 : DnsRecord → Bytes
unfolding ipv4_text
dns_record_ipv4 rec =
    if not (rec.rtype == dns_type_a) || not (length rec.rdata == 4) then [] else ipv4_text rec.rdata

unfoldable pub dns_record_ipv6 : (Bytes → Bytes) → DnsRecord → Bytes
dns_record_ipv6 ipv6_text rec =
    if not (rec.rtype == dns_type_aaaa) || not (length rec.rdata == 16)
    then []
    else ipv6_text rec.rdata

-- The fuel is that of `decodeDNSName`.
unfoldable pub name_at : ℕ → Bytes → ℕ → Go Bytes
unfolding decode_dns_name
name_at fuel msg offset =
    let read = do
      (name, next) ← decode_dns_name fuel msg offset
      done (trim_suffix (codes ".") (sanitize_one_line name))
    in if leb (length msg) offset then done [] else read

unfoldable pub dns_record_name : ℕ → Bytes → DnsRecord → Go Bytes
unfolding name_at
dns_record_name fuel msg rec =
    let offset = if rec.rtype == dns_type_srv then rec.rdata_offset + 6 else rec.rdata_offset in
    if not (rec.rtype == dns_type_ptr) && not (rec.rtype == dns_type_srv)
    then done []
    else name_at fuel msg offset

-- A string at `offset`, behind its length, and then what `more` gives from its end on
unfoldable pub text_part : (ℕ → Go (List Bytes)) → Bytes → ℕ → ℕ → Go (List Bytes)
text_part more rdata offset len =
    let read = do
      part ← slice rdata offset (offset + len)
      parts ← more (offset + len)
      done (part ∷ parts)
    in if ltb (length rdata) (offset + len) then done [] else read

-- The loop of `dnsRecordTXT`, with fuel for its rounds
unfoldable pub text_parts : ℕ → Bytes → ℕ → Go (List Bytes)
unfolding text_part
text_parts zero rdata offset = stuck
text_parts (suc fuel) rdata offset =
    let read = do len ← at rdata offset; text_part (text_parts fuel rdata) rdata (offset + 1) len
    in if not (ltb offset (length rdata)) then done [] else read

unfoldable pub dns_record_txt : DnsRecord → Go Bytes
unfolding text_parts
dns_record_txt rec =
    let read = do
      parts ← text_parts (suc (length rec.rdata)) rec.rdata 0
      done (sanitize_one_line (join (codes " ") parts))
    in if not (rec.rtype == dns_type_txt) || length rec.rdata == 0 then done [] else read
