-- ===== src/Sanitize/Bounds.antt =====
-- What sanitizeOneLine promises: no line breaks, at most 240 bytes, no half-encoded rune.
use ipscry.Common.{
  ℕ, zero, suc, ◌≤◌, ◌<◌, ◌≡◌, refl, ◌≢◌, inl, inr, true, false, [], ◌∷◌, map, arith, ltb, ◌==◌,
  ltb→lt, ltb→le, Bool-cases, length, take, drop, All, length-take, All-take, All-drop, Bytes,
}
use ipscry.Common.Trim.{space_width, space_width_back, trim_loop, trim_space}
use mathlib.Core.List.{reverse, reverse_aux}
use ipscry.Sanitize.{max_field_len, valid_string, trim_invalid, blank, sanitize_one_line}

abbrev pub IsInLine : ℕ → Type 0
IsInLine c = (c ≢ b'\n') × (c ≢ b'\r')

module _ (P : ℕ → Type 0) where
  All-reverse_aux : (s r : Bytes) → All P s → All P r → All P (reverse_aux s r)
  All-reverse_aux [] r h k = k
  All-reverse_aux (c ∷ s) r (h, t) k = All-reverse_aux s (c ∷ r) t (h, k)

  All-trim_loop :
      (fuel : ℕ) (width : Bytes → ℕ) (s : Bytes) → All P s → All P (trim_loop fuel width s)
  unfolding trim_loop
  All-trim_loop zero width s h = h
  All-trim_loop (suc fuel) width s h =
      go (width s) (λ k. All-trim_loop fuel width (drop k s) (All-drop P k s h))
    where
      go :
          (k : ℕ)
          → ((m : ℕ) → All P (trim_loop fuel width (drop m s)))
          → All P (elim k [ zero ↦ s | suc k ↦ trim_loop fuel width (drop (suc k) s) ])
      go zero more = h
      go (suc k) more = more (suc k)

  pub All-trim_space : (s : Bytes) → All P s → All P (trim_space s)
  unfolding trim_space
  All-trim_space s h =
      let front = trim_loop (length s) space_width s in
      let back = reverse front in
      All-reverse_aux (trim_loop (length front) space_width_back back) []
        (All-trim_loop (length front) space_width_back back
          (All-reverse_aux front [] (All-trim_loop (length s) space_width s h) tt))
        tt

blank_line : (value : Bytes) → All IsInLine (map (blank b'\n') (map (blank b'\r') value))
blank_line [] = tt
blank_line (c ∷ value) = (ground arith, blank_line value)

-- `t` is the longest prefix of at most `n` bytes of `s` that is valid UTF-8.
pub record IsLongestValid (n : ℕ) (s t : Bytes) : Type 0 where
  pub size : ℕ
  pub within : size ≤ n
  pub is_prefix : t ≡ take size s
  pub valid : valid_string t ≡ true
  pub longest : (m : ℕ) → m ≤ n → valid_string (take m s) ≡ true → m ≤ size

trim_invalid-IsLongestValid : (n : ℕ) (s : Bytes) → IsLongestValid n s (trim_invalid n s)
unfolding trim_invalid
trim_invalid-IsLongestValid zero s = record {
  size = 0;
  within = omega arith;
  is_prefix = refl;
  valid = unfold valid_string in refl;
  longest = λ m h v. h;
}
trim_invalid-IsLongestValid (suc n) s = elim (Bool-cases (valid_string (take (suc n) s))) [
  | inl ok ↦ rw ok (record {
    size = suc n;
    within = omega arith;
    is_prefix = refl;
    valid = ok;
    longest = λ m h v. h;
  })
  | inr bad ↦ rw bad (widen (trim_invalid-IsLongestValid n s) bad)
]
  where
    widen :
        IsLongestValid n s (trim_invalid n s)
        → valid_string (take (suc n) s) ≡ false
        → IsLongestValid (suc n) s (trim_invalid n s)
    widen r bad = record {
      size = r.size;
      within = let w = r.within in omega arith;
      is_prefix = r.is_prefix;
      valid = r.valid;
      longest = λ m h v. elim (Bool-cases (m == suc n)) [
        | inl e ↦
            let same : m ≡ suc n = ground arith in
            let v' : valid_string (take (suc n) s) ≡ true = rw same at v in cc
        | inr ne ↦ let other : m ≢ suc n = ground arith in r.longest m (omega arith) v
      ];
    }

length-trim_invalid : (n : ℕ) (s : Bytes) → length (trim_invalid n s) ≤ n
unfolding trim_invalid
length-trim_invalid zero s = omega arith
length-trim_invalid (suc n) s = ground (arith, length-trim_invalid n s, length-take {0} (suc n) s)

-- The text as one line, before it is cut.
abbrev pub one_line : Bytes → Bytes
one_line value = trim_space (map (blank b'\n') (map (blank b'\r') value))

-- `sanitizeOneLine` returns no line break and at most 240 bytes. A line that fits is returned whole;
-- of a longer one the longest prefix of its first 240 bytes that is valid UTF-8.
pub sanitize_one_line_lem :
    (value : Bytes)
    → All IsInLine (sanitize_one_line value)
      × (length (sanitize_one_line value) ≤ max_field_len)
      × (length (one_line value) ≤ max_field_len → sanitize_one_line value ≡ one_line value)
      × (max_field_len < length (one_line value)
          → IsLongestValid max_field_len
              (take max_field_len (one_line value))
              (sanitize_one_line value))
unfolding sanitize_one_line
sanitize_one_line_lem value = elim (Bool-cases (ltb max_field_len (length line))) [
  | inr e ↦ rw e (
    clean,
    ltb→le max_field_len (length line) e,
    λ h. refl,
    λ h. absurd (omega (arith, ltb→le max_field_len (length line) e)),
  )
  | inl e ↦
      let r = trim_invalid-IsLongestValid max_field_len (take max_field_len line) in
      rw e (
        rw (r.is_prefix) (
            All-take IsInLine r.size (take max_field_len line)
              (All-take IsInLine max_field_len line clean)),
        length-trim_invalid max_field_len (take max_field_len line),
        λ h. absurd (omega (arith, ltb→lt max_field_len (length line) e)),
        λ h. r,
      )
]
  where
    line : Bytes
    line = one_line value

    clean : All IsInLine line
    clean = All-trim_space IsInLine (map (blank b'\n') (map (blank b'\r') value)) (blank_line value)
