-- ===== src/Smb/Frame.antt =====
-- The framing of SMB messages, written and read.
use ipscry.Common.{
  ℕ, ◌+◌, ◌*◌, ◌/◌, ◌%◌, ◌^◌, ◌<◌, ◌≡◌, refl, ap, inl, inr, false, ◌||◌, [], ◌∷◌, ◌++◌, arith, ltb,
  ◌==◌, if◌then◌else◌, le→ltb, Bool-cases, length, length-append, take-length, drop-length, done,
  at, Bytes,
}
use ipscry.Smb.{
  message, invalid_length, read_full, smb2_length, read_payload, read_smb2, frame_direct_tcp,
}

length_bytes : (n : ℕ) → n < 2 ^ 24 → n / 65536 % 256 * 65536 + n / 256 % 256 * 256 + n % 256 ≡ n
length_bytes n h = omega arith

header_length : (a b c : ℕ) → smb2_length (0 ∷ a ∷ b ∷ c ∷ []) ≡ done (a * 65536 + b * 256 + c)
unfolding smb2_length at
header_length a b c = refl

read_payload-append :
    (payload rest : Bytes)
    → read_payload (length payload) (payload ++ rest) ≡ (
        if length payload == 0 || ltb 65535 (length payload)
        then invalid_length
        else message payload rest)
unfolding read_payload read_full
read_payload-append payload rest =
    let size = length-append {0} payload rest in
    let fits : ltb (length (payload ++ rest)) (length payload) ≡ false = le→ltb _ _ (omega arith) in
    elim (Bool-cases (length payload == 0 || ltb 65535 (length payload))) [
      | inl e ↦ rw (e) refl
      | inr e ↦ rw (e) (rw (fits, take-length payload rest, drop-length payload rest) refl)
    ]

-- readSMB2 reads back a message of 1 to 65,535 bytes that frameDirectTCP framed, and leaves what follows;
-- a longer or an empty one, up to 24 bits of length, it refuses.
pub read_smb2-frame_direct_tcp :
    (payload rest : Bytes)
    → length payload < 2 ^ 24
    → read_smb2 (frame_direct_tcp payload ++ rest)
      ≡ done (
          if length payload == 0 || ltb 65535 (length payload)
          then invalid_length
          else message payload rest)
unfolding read_smb2 frame_direct_tcp read_full
read_smb2-frame_direct_tcp payload rest h =
    let n = length payload in
    let fits : ltb (length (frame_direct_tcp payload ++ rest)) 4 ≡ false =
      le→ltb _ _ (omega arith) in
    rw (fits, read_smb2)
      (rw (header_length (n / 65536 % 256) (n / 256 % 256) (n % 256), length_bytes n h)
        (ap done (read_payload-append payload rest)))
