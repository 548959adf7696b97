-- ===== src/Smb.antt =====
-- The SMB2 negotiation of main.go that reads a computer's name: readSMB2, frameDirectTCP, the two
-- requests, parseNTLMChallenge and utf16LE. A connection is the list of the bytes that will arrive.
pub mod Frame
pub mod Bounds
pub mod Names
pub mod Unicode
use ipscry.Common.{
  ℕ, zero, suc, ◌+◌, ◌-◌, ◌*◌, ◌/◌, ◌%◌, Bool, not, ◌&&◌, ◌||◌, Option, none, some, List, [], ◌∷◌,
  ◌++◌, ltb, leb, ◌==◌, if◌then◌else◌, length, take, drop, replicate, Go, done, stuck, ◌>>=◌, at,
  slice, Bytes,
}
use ipscry.Common.Text.{codes, index}
use ipscry.Sanitize.{sanitize_one_line}

-- `copy(dst[i:], src)`, where it fits
unfoldable pub copy_at : ℕ → Bytes → Bytes → Bytes
copy_at i src dst = take i dst ++ (src ++ drop (i + length src) dst)

-- `binary.LittleEndian`: `PutUint16`, `PutUint64`, `Uint16` and `Uint32`
unfoldable pub little_endian : ℕ → ℕ → Bytes
little_endian zero v = []
little_endian (suc width) v = v % 256 ∷ little_endian width (v / 256)

unfoldable pub put_uint16 : ℕ → ℕ → Bytes → Bytes
unfolding copy_at little_endian
put_uint16 i v dst = copy_at i (little_endian 2 v) dst

unfoldable pub le_uint16 : Bytes → ℕ → Go ℕ
le_uint16 b i = do lo ← at b i; hi ← at b (i + 1); done (lo + hi * 256)

unfoldable pub le_uint32 : Bytes → ℕ → Go ℕ
unfolding le_uint16
le_uint32 b i = do lo ← le_uint16 b i; hi ← le_uint16 b (i + 2); done (lo + hi * 65536)

unfoldable pub ntlm_type1 : Bytes
ntlm_type1 = codes "NTLMSSP" ++ (0 ∷ 1 ∷ 0 ∷ 0 ∷ 0 ∷ 0x07 ∷ 0x82 ∷ 0x08 ∷ 0 ∷ replicate 16 0)

-- What readSMB2 returns: a message and what is still to come, or an error.
pub data SmbRead : Type 0 where
  message : Bytes → Bytes → SmbRead
  unexpected_eof invalid_length : SmbRead

-- `io.ReadFull` of n bytes
unfoldable pub read_full : ℕ → Bytes → Option (Bytes × Bytes)
read_full n conn = if ltb (length conn) n then none else some (take n conn, drop n conn)

unfoldable pub smb2_length : Bytes → Go ℕ
smb2_length hdr = do a ← at hdr 1; b ← at hdr 2; c ← at hdr 3; done (a * 65536 + b * 256 + c)

unfoldable pub read_payload : ℕ → Bytes → SmbRead
unfolding read_full
read_payload length conn =
    if length == 0 || ltb 65535 length then invalid_length else elim (read_full length conn) [
      | none ↦ unexpected_eof
      | some (buf, rest) ↦ message buf rest
    ]

unfoldable pub read_smb2 : Bytes → Go SmbRead
unfolding read_full smb2_length read_payload
read_smb2 conn = elim (read_full 4 conn) [
  | none ↦ done unexpected_eof
  | some (hdr, rest) ↦ do length ← smb2_length hdr; done (read_payload length rest)
]

unfoldable pub frame_direct_tcp : Bytes → Bytes
frame_direct_tcp payload =
    0 ∷ length payload / 65536 % 256 ∷ length payload / 256 % 256 ∷ length payload % 256 ∷ payload

unfoldable pub smb2_header : ℕ → ℕ → Bytes
unfolding copy_at put_uint16 little_endian
smb2_header command message_id = copy_at 24 (little_endian 8 message_id) (
    put_uint16 14 1
      (put_uint16 12 command (put_uint16 4 64 (copy_at 0 (0xfe ∷ codes "SMB") (replicate 64 0)))))

unfoldable pub build_smb2_negotiate : Bytes
unfolding put_uint16 smb2_header frame_direct_tcp
build_smb2_negotiate =
    let body = put_uint16 4 1 (put_uint16 2 2 (put_uint16 0 36 (replicate 36 0))) in
    let dialects = put_uint16 2 0x0210 (put_uint16 0 0x0202 (replicate 4 0)) in
    frame_direct_tcp ((smb2_header 0 0 ++ body) ++ dialects)

abbrev pub security_buffer_offset : ℕ
security_buffer_offset = 64 + 24

unfoldable pub build_smb2_session_setup : Bytes
unfolding copy_at put_uint16 smb2_header frame_direct_tcp ntlm_type1
build_smb2_session_setup =
    let start = copy_at 3 (1 ∷ []) (put_uint16 0 25 (replicate 24 0)) in
    let body = put_uint16 14 (length ntlm_type1) (put_uint16 12 security_buffer_offset start) in
    frame_direct_tcp ((smb2_header 1 1 ++ body) ++ ntlm_type1)

-- `utf16.Decode`: a pair of surrogates is one rune, a single one U+FFFD.
unfoldable pub is_high : ℕ → Bool
is_high c = leb 0xd800 c && ltb c 0xdc00

unfoldable pub is_low : ℕ → Bool
is_low c = leb 0xdc00 c && ltb c 0xe000

unfoldable pub decode_one : ℕ → ℕ
unfolding is_high is_low
decode_one c = if is_high c || is_low c then 0xfffd else c

unfoldable pub utf16_decode : List ℕ → List ℕ
unfolding is_high is_low decode_one
utf16_decode [] = []
utf16_decode (c ∷ []) = decode_one c ∷ []
utf16_decode (c ∷ d ∷ codes) =
    let single = decode_one c ∷ utf16_decode (d ∷ codes) in
    let pair = ((c - 0xd800) * 1024 + (d - 0xdc00) + 0x10000) ∷ utf16_decode codes in
    if is_high c && is_low d then pair else single

-- `string(runes)`
unfoldable pub utf8_encode : ℕ → Bytes
utf8_encode r =
    if ltb r 0x80
    then r ∷ []
    else if ltb r 0x800
    then (0xc0 + r / 64) ∷ (0x80 + r % 64) ∷ []
    else if ltb r 0x10000
    then (0xe0 + r / 4096) ∷ (0x80 + r / 64 % 64) ∷ (0x80 + r % 64) ∷ []
    else (0xf0 + r / 262144) ∷ (0x80 + r / 4096 % 64) ∷ (0x80 + r / 64 % 64) ∷ (0x80 + r % 64) ∷ []

unfoldable pub utf8_string : List ℕ → Bytes
unfolding utf8_encode
utf8_string [] = []
utf8_string (r ∷ runes) = utf8_encode r ++ utf8_string runes

-- The 16-bit codes; an odd byte at the end is cut off.
unfoldable pub utf16_codes : Bytes → List ℕ
utf16_codes [] = []
utf16_codes (lo ∷ []) = []
utf16_codes (lo ∷ hi ∷ b) = (lo + hi * 256) ∷ utf16_codes b

unfoldable pub utf16_le : Bytes → Bytes
unfolding utf16_codes utf16_decode utf8_string
utf16_le b = utf8_string (utf16_decode (utf16_codes b))

-- The two names: of NetBIOS, and of DNS, which comes first.
unfoldable pub challenge_name : Bytes → Bytes → Bytes
challenge_name nb dns = if length dns == 0 then sanitize_one_line nb else sanitize_one_line dns

-- The switch over the kind of the attribute, and the next round
unfoldable pub use_attribute : (Bytes → Bytes → Go Bytes) → ℕ → Bytes → Bytes → Bytes → Go Bytes
unfolding utf16_le
use_attribute more id value nb dns =
    if id == 1
    then more (utf16_le value) dns
    else if id == 3
    then more nb (utf16_le value)
    else more nb dns

-- The loop over the target info from `off` on
unfoldable pub scan_attributes : ℕ → Bytes → ℕ → Bytes → Bytes → Go Bytes
unfolding le_uint16 use_attribute challenge_name
scan_attributes zero info off nb dns = stuck
scan_attributes (suc fuel) info off nb dns =
    let value : ℕ → ℕ → Go Bytes = λ id len. do
      attribute ← slice info (off + 4) (off + 4 + len)
      use_attribute (scan_attributes fuel info (off + 4 + len)) id attribute nb dns
    in let round = do
      id ← le_uint16 info off
      len ← le_uint16 info (off + 2)
      if id == 0 || ltb (length info) (off + 4 + len)
          then done (challenge_name nb dns)
          else value id len
      in if ltb (length info) (off + 4) then done (challenge_name nb dns) else round

abbrev pub signature : Bytes
signature = codes "NTLMSSP" ++ (0 ∷ [])

-- The target info of a message
unfoldable pub read_target_info : Bytes → Go Bytes
unfolding le_uint16 le_uint32 scan_attributes
read_target_info msg =
    let body = do
      len ← le_uint16 msg 40
      off ← le_uint32 msg 44
      if len == 0 || ltb (length msg) (off + len)
          then done []
          else do info ← slice msg off (off + len); scan_attributes (suc (length info)) info 0 [] []
    in if ltb (length msg) 48
      then done []
      else do kind ← le_uint32 msg 8; if not (kind == 2) then done [] else body

unfoldable pub parse_ntlm_challenge : Bytes → Go Bytes
unfolding read_target_info
parse_ntlm_challenge resp = elim (index signature resp) [
  | none ↦ done []
  | some idx ↦ do msg ← slice resp idx (length resp); read_target_info msg
]
