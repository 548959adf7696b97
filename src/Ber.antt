-- ===== src/Ber.antt =====
-- BER as main.go uses it for SNMP: readTLV, asn1TLV, asn1Len and asn1Int.
pub mod Digits
pub mod Total
pub mod RoundTrip
use ipscry.Common.{
  ℕ, zero, suc, ◌+◌, ◌*◌, ◌/◌, ◌%◌, bit_and, bit_or, ◌||◌, Option, none, some, [], ◌∷◌, ◌++◌, ltb,
  ◌==◌, if◌then◌else◌, length, Go, done, ◌>>=◌, at, slice, Bytes,
}

-- What `readTLV` returns where its `ok` is true.
pub record Tlv : Type 0 where
  pub tag : ℕ
  pub content : Bytes
  pub rest : Bytes

-- `for j := 0; j < numBytes; j++ { length = length<<8 | int(b[2+j]) }`, from `j` on. A byte is below
-- 256, so the or is a sum; four bytes at most are read, so the 64-bit shift loses nothing.
unfoldable pub long_length : Bytes → ℕ → ℕ → ℕ → Go ℕ
long_length b zero j length = done length
long_length b (suc rounds) j length = do
  x ← at b (2 + j)
  long_length b rounds (j + 1) (length * 256 + x)

-- The last check and the two slices; `length < 0` cannot hold.
unfoldable pub take_content : Bytes → ℕ → ℕ → ℕ → Go (Option Tlv)
take_content b tag len idx = if ltb (length b) (idx + len) then done none else do
  content ← slice b idx (idx + len)
  rest ← slice b (idx + len) (length b)
  done (some (record { tag = tag; content = content; rest = rest }))

-- The long form, `length & 0x80 != 0`.
unfoldable pub read_long : Bytes → ℕ → ℕ → Go (Option Tlv)
unfolding long_length take_content
read_long b tag num_bytes =
    if num_bytes == 0 || (ltb 4 num_bytes || ltb (length b) (2 + num_bytes))
    then done none
    else do len ← long_length b num_bytes 0 0; take_content b tag len (2 + num_bytes)

-- `done none` stands for `ok == false`.
unfoldable pub read_tlv : Bytes → Go (Option Tlv)
unfolding read_long take_content
read_tlv b = if ltb (length b) 2 then done none else do
  tag ← at b 0
  first ← at b 1
  if bit_and first 0x80 == 0
      then take_content b tag first 2
      else read_long b tag (bit_and first 0x7f)

-- `for n > 0 { b = append([]byte{byte(n & 0xff)}, b...); n >>= 8 }`. A Go int has 8 bytes, so 8
-- rounds are enough.
unfoldable pub big_endian : ℕ → ℕ → Bytes → Bytes
big_endian zero n b = b
big_endian (suc fuel) n b =
    let more = big_endian fuel (n / 256) ((n % 256) ∷ b) in if n == 0 then b else more

abbrev pub int_bytes : ℕ
int_bytes = 8

unfoldable pub asn1_len : ℕ → Bytes
unfolding big_endian
asn1_len n =
    if ltb n 0x80
    then n ∷ []
    else let b = big_endian int_bytes n [] in bit_or 0x80 (length b % 256) ∷ b

unfoldable pub asn1_tlv : ℕ → Bytes → Bytes
unfolding asn1_len
asn1_tlv tag content = tag ∷ (asn1_len (length content) ++ content)

-- The leading zero keeps the value positive.
unfoldable pub keep_positive : Bytes → Bytes
keep_positive [] = []
keep_positive (x ∷ b) = if bit_and x 0x80 == 0 then x ∷ b else 0 ∷ x ∷ b

-- For `v >= 0`; the program encodes no negative number.
unfoldable pub asn1_int : ℕ → Bytes
asn1_int v =
    if v == 0
    then asn1_tlv 0x02 (0 ∷ [])
    else asn1_tlv 0x02 (keep_positive (big_endian int_bytes v []))
