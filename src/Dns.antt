-- ===== src/Dns.antt =====
-- DNS messages: dnswire.go, up to the record readers. A uint16 is a number below 2 ^ 16.
pub mod Bounds
pub mod Pointers
pub mod RoundTrip
pub mod Records
use ipscry.Common.{
  ℕ, zero, suc, ◌+◌, ◌*◌, ◌/◌, ◌%◌, ◌^◌, bit_and, Bool, false, not, ◌||◌, Option, none, some, List,
  [], ◌∷◌, ◌++◌, ltb, leb, ◌==◌, if◌then◌else◌, length, take, Go, done, stuck, ◌>>=◌, at, slice,
  Bytes,
}
use ipscry.Common.Text.{codes, trim_suffix, split, cut, join}
use ipscry.Common.Trim.{trim_space}

abbrev pub dns_type_a : ℕ
dns_type_a = 1

abbrev pub dns_type_ptr : ℕ
dns_type_ptr = 12

abbrev pub dns_type_txt : ℕ
dns_type_txt = 16

abbrev pub dns_type_aaaa : ℕ
dns_type_aaaa = 28

abbrev pub dns_type_srv : ℕ
dns_type_srv = 33

pub record DnsRecord : Type 0 where
  pub name : Bytes
  pub rtype : ℕ
  pub class : ℕ
  pub ttl : ℕ
  pub rdata : Bytes
  pub rdata_offset : ℕ

pub record DnsPacket : Type 0 where
  pub id : ℕ
  pub flags : ℕ
  pub records : List DnsRecord

-- The loop over the labels, and the root label behind it.
unfoldable pub encode_labels : List Bytes → Bytes
encode_labels [] = 0 ∷ []
encode_labels (label ∷ labels) =
    let cut = if ltb 63 (length label) then take 63 label else label in
    (length cut % 256) ∷ (cut ++ encode_labels labels)

unfoldable pub encode_dns_name : Bytes → Bytes
unfolding encode_labels
encode_dns_name name =
    let trimmed = trim_suffix (codes ".") (trim_space name) in
    if length trimmed == 0 then 0 ∷ [] else encode_labels (split b'.' trimmed)

-- `visited[offset]`
unfoldable pub is_visited : List ℕ → ℕ → Bool
is_visited [] offset = false
is_visited (v ∷ visited) offset = v == offset || is_visited visited offset

-- Two bytes behind `i`, as `binary.BigEndian.Uint16`.
unfoldable pub uint16 : Bytes → ℕ → Go ℕ
uint16 msg i = do hi ← at msg i; lo ← at msg (i + 1); done (hi * 256 + lo)

-- A name behind a pointer joins the labels unless it is empty.
abbrev pub add_name : List Bytes → Bytes → List Bytes
add_name labels [] = labels
add_name labels (c ∷ name) = labels ++ ((c ∷ name) ∷ [])

-- What a call returns: the name and the offset behind it. The error is always nil.
abbrev pub Decoded : Type 0
Decoded = Go (Bytes × ℕ)

-- The branch on a pointer; `again` is the call of `decodeDNSName` at its target.
unfoldable pub decode_pointer : (ℕ → Decoded) → Bytes → ℕ → List Bytes → Decoded
unfolding uint16
decode_pointer again msg offset labels =
    let jump = do
      word ← uint16 msg offset
      (name, _) ← again (bit_and word 0x3fff)
      done (join (codes ".") (add_name labels name), offset + 2)
    in if leb (length msg) (offset + 1) then done (join (codes ".") labels, offset) else jump

-- The branch on a label; `more` is the rest of the loop.
unfoldable pub decode_label : (ℕ → List Bytes → Decoded) → Bytes → ℕ → ℕ → List Bytes → Decoded
decode_label more msg start len labels =
    let rest = do label ← slice msg start (start + len); more (start + len) (labels ++ label ∷ [])
    in if ltb (length msg) (start + len) then done (join (codes ".") labels, start) else rest

-- What the length byte says: the root label, a pointer or a label.
unfoldable pub decode_length :
    (ℕ → List ℕ → List Bytes → Decoded) → Bytes → ℕ → List ℕ → List Bytes → ℕ → Decoded
decode_length loop msg offset visited labels len =
    let pointer = decode_pointer (λ target. loop target [] []) msg offset labels in
    let label = decode_label (λ next. loop next (offset ∷ visited)) msg (offset + 1) len labels in
    if len == 0
    then done (join (codes ".") labels, offset + 1)
    else if bit_and len 0xc0 == 0xc0
    then pointer
    else label

-- One round of the loop of `decodeDNSName`. Each call has a map `visited` of its own.
unfoldable pub decode_step :
    (ℕ → List ℕ → List Bytes → Decoded) → Bytes → ℕ → List ℕ → List Bytes → Decoded
decode_step loop msg offset visited labels =
    let round = do len ← at msg offset; decode_length loop msg offset visited labels len
    in if not (ltb offset (length msg))
      then done (join (codes ".") labels, offset)
      else if is_visited visited offset
      then done ([], offset)
      else round

-- `fuel` counts the rounds of all calls on the stack. `stuck` is a run that needs more of them.
unfoldable pub decode_loop : ℕ → Bytes → ℕ → List ℕ → List Bytes → Decoded
unfolding decode_step decode_length decode_pointer decode_label is_visited
decode_loop zero msg offset visited labels = stuck
decode_loop (suc fuel) msg offset visited labels =
    decode_step (decode_loop fuel msg) msg offset visited labels

unfoldable pub decode_dns_name : ℕ → Bytes → ℕ → Decoded
unfolding decode_loop
decode_dns_name fuel msg offset = decode_loop fuel msg offset [] []

-- `binary.BigEndian.PutUint16`
abbrev pub put16 : ℕ → Bytes
put16 x = (x / 256 % 256) ∷ (x % 256) ∷ []

unfoldable pub build_dns_query : ℕ → Bytes → ℕ → Bool → Bytes
unfolding encode_dns_name
build_dns_query id name qtype unicast_response =
    let flags = if unicast_response then 0x8000 else 0 in
    put16 id
    ++ (put16 flags
        ++ (put16 1
            ++ (put16 0
                ++ (put16 0
                    ++ (put16 0 ++ (encode_dns_name name ++ (put16 qtype ++ (0 ∷ 1 ∷ []))))))))

-- The loop over the questions; `none` is the early `return dnsPacket{}, false`.
unfoldable pub skip_questions : ℕ → ℕ → Bytes → ℕ → Go (Option ℕ)
unfolding decode_dns_name
skip_questions zero fuel msg offset = done (some offset)
skip_questions (suc count) fuel msg offset = do
  (_, next) ← decode_dns_name fuel msg offset
  let rest = skip_questions count fuel msg (next + 4)
  if ltb (length msg) (next + 4) then done none else rest

-- One record at `next`, behind its name; `none` is a break.
unfoldable pub read_record : Bytes → Bytes → ℕ → Go (Option DnsRecord)
unfolding uint16
read_record msg name next = if ltb (length msg) (next + 10) then done none else do
  rtype ← uint16 msg next
  class ← uint16 msg (next + 2)
  ttl_hi ← uint16 msg (next + 4)
  ttl_lo ← uint16 msg (next + 6)
  rdlen ← uint16 msg (next + 8)
  if ltb (length msg) (next + 10 + rdlen) then done none else do
    rdata ← slice msg (next + 10) (next + 10 + rdlen)
    done (
        some (record {
          name = name;
          rtype = rtype;
          class = class;
          ttl = ttl_hi * 2 ^ 16 + ttl_lo;
          rdata = rdata;
          rdata_offset = next + 10;
        }))

-- Appends a record and goes on behind its data, `offset = next + rdlen`, or breaks. The data is as
-- long as `rdlen` says.
unfoldable pub add_record :
    (ℕ → List DnsRecord → Go (List DnsRecord))
    → List DnsRecord
    → Option DnsRecord
    → Go (List DnsRecord)
add_record more out none = done out
add_record more out (some r) = more (r.rdata_offset + length r.rdata) (out ++ r ∷ [])

unfoldable pub read_records : ℕ → ℕ → Bytes → ℕ → List DnsRecord → Go (List DnsRecord)
unfolding decode_dns_name read_record add_record
read_records zero fuel msg offset out = done out
read_records (suc count) fuel msg offset out = do
  (name, next) ← decode_dns_name fuel msg offset
  found ← read_record msg name next
  add_record (read_records count fuel msg) out found

-- The packet behind its header; `start` is what the loop over the questions returned.
unfoldable pub parse_body : ℕ → Bytes → ℕ → ℕ → ℕ → Option ℕ → Go (Option DnsPacket)
unfolding read_records
parse_body fuel msg id flags count none = done none
parse_body fuel msg id flags count (some offset) = do
  records ← read_records count fuel msg offset []
  done (some (record { id = id; flags = flags; records = records }))

-- `done none` stands for the result false.
unfoldable pub parse_dns_packet : ℕ → Bytes → Go (Option DnsPacket)
unfolding uint16 skip_questions parse_body
parse_dns_packet fuel msg = if ltb (length msg) 12 then done none else do
  id ← uint16 msg 0
  flags ← uint16 msg 2
  qd ← uint16 msg 4
  an ← uint16 msg 6
  ns ← uint16 msg 8
  ar ← uint16 msg 10
  start ← skip_questions qd fuel msg 12
  parse_body fuel msg id flags (an + ns + ar) start
