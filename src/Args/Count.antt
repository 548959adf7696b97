-- ===== src/Args/Count.antt =====
-- The arguments that normalizeScanArgs takes and those that it gives.
use ipscry.Common.{
  ◌+◌, ◌≡◌, inl, inr, Bool, false, List, [], ◌∷◌, arith, Bool-cases, length, All, length-append,
  Bytes,
}
use ipscry.Common.Text.{codes, has_prefix}
use ipscry.Args.{
  Token, token, refused, normalize_flag_token, takes_value, ArgsResult, normal, bad_args,
  with_flags, with_positional, last_flag, next_flag, normalize_scan_args,
}

abbrev is_flag : Bytes → Bool
is_flag arg = has_prefix (codes "-") arg

-- The flags and their values, and the rest, are as many as the arguments, and no argument of the rest looks
-- like a flag.
abbrev pub IsDivided : List Bytes → ArgsResult → Type 0
IsDivided args (bad_args e) = Unit
IsDivided args (normal flags positional) =
    (length flags + length positional ≡ length args) × All (λ arg. is_flag arg ≡ false) positional

flags_first :
    (flags args behind : List Bytes) (r : ArgsResult)
    → length args ≡ length flags + length behind
    → IsDivided behind r
    → IsDivided args (with_flags flags r)
unfolding with_flags
flags_first flags args behind (bad_args e) h d = tt
flags_first flags args behind (normal more positional) h (d, all) =
    (omega (arith, length-append {0} flags more), all)

positional_first :
    (arg : Bytes) (args : List Bytes) (r : ArgsResult)
    → is_flag arg ≡ false
    → IsDivided args r
    → IsDivided (arg ∷ args) (with_positional arg r)
unfolding with_positional
positional_first arg args (bad_args e) h d = tt
positional_first arg args (normal flags more) h (d, all) = (omega arith, (h, all))

last_flag-IsDivided : (arg : Bytes) (t : Token) → IsDivided (arg ∷ []) (last_flag arg t)
unfolding last_flag
last_flag-IsDivided arg (refused e) = tt
last_flag-IsDivided arg (token flag) = elim (Bool-cases (takes_value flag)) [
  | inl e ↦ rw (e) tt
  | inr e ↦ rw (e) (omega arith, tt)
]

next_flag-IsDivided :
    (t : Token) (arg value : Bytes) (args : List Bytes) (rest behind : ArgsResult)
    → IsDivided (value ∷ args) rest
    → IsDivided args behind
    → IsDivided (arg ∷ value ∷ args) (next_flag t value rest behind)
unfolding next_flag
next_flag-IsDivided (refused e) arg value args rest behind h k = tt
next_flag-IsDivided (token flag) arg value args rest behind h k =
    elim (Bool-cases (takes_value flag)) [
      | inl e ↦
          rw (e) (flags_first (flag ∷ value ∷ []) (arg ∷ value ∷ args) args behind (omega arith) k)
      | inr e ↦
          rw (e) (flags_first (flag ∷ []) (arg ∷ value ∷ args) (value ∷ args) rest (omega arith) h)
    ]

-- Where normalizeScanArgs accepts the arguments, the flags with their values and the positional arguments are
-- as many as there were, and no positional argument starts with a dash.
pub normalize_scan_args-IsDivided : (args : List Bytes) → IsDivided args (normalize_scan_args args)
unfolding normalize_scan_args
normalize_scan_args-IsDivided [] = (omega arith, tt)
normalize_scan_args-IsDivided (arg ∷ []) = elim (Bool-cases (is_flag arg)) [
  | inl e ↦ rw (e) (last_flag-IsDivided arg (normalize_flag_token arg))
  | inr e ↦ rw (e) (omega arith, (e, tt))
]
normalize_scan_args-IsDivided (arg ∷ value ∷ args) =
    let rest = normalize_scan_args-IsDivided (value ∷ args) in
    let behind = normalize_scan_args-IsDivided args in
    elim (Bool-cases (is_flag arg)) [
      | inl e ↦ rw (e) (
          next_flag-IsDivided (normalize_flag_token arg) arg value args
            (normalize_scan_args (value ∷ args)) (normalize_scan_args args) rest behind)
      | inr e ↦
          rw (e) (positional_first arg (value ∷ args) (normalize_scan_args (value ∷ args)) e rest)
    ]
