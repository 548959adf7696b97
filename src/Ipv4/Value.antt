-- ===== src/Ipv4/Value.antt =====
-- The number that an IPv4 address stands for, and the operations in its terms.
use ipscry.Common.{
  ℕ, ◌+◌, ◌*◌, ◌/◌, ◌%◌, ◌^◌, ◌≤◌, ◌<◌, ◌≡◌, refl, ◌≢◌, ◌↔◌, ◌⊎◌, inl, inr, Bool, true, some, [],
  ◌∷◌, arith, ltb, ◌==◌, ltb→lt, lt→ltb, le→ltb, ltb→le, Bool-cases, Bytes,
}
use ipscry.Ipv4.{inc_ip, less_bytes, less_ip, is_private_ipv4}

abbrev pub ip_value : Bytes → ℕ
ip_value (a ∷ b ∷ c ∷ d ∷ []) = ((a * 256 + b) * 256 + c) * 256 + d
ip_value _ = 0

-- Four bytes.
abbrev pub IsIp : Bytes → Type 0
IsIp (a ∷ b ∷ c ∷ d ∷ []) = (a < 256) × (b < 256) × (c < 256) × (d < 256)
IsIp _ = ⊥

-- The address of a number below 2 ^ 32.
abbrev pub to_ip : ℕ → Bytes
to_ip v = (v / 2 ^ 24 % 256) ∷ (v / 2 ^ 16 % 256) ∷ (v / 256 % 256) ∷ (v % 256) ∷ []

pub to_ip-IsIp : (v : ℕ) → IsIp (to_ip v)
to_ip-IsIp v = omega arith

pub ip_value-to_ip : (v : ℕ) → v < 2 ^ 32 → ip_value (to_ip v) ≡ v
ip_value-to_ip v h = omega arith

pub to_ip-ip_value : (ip : Bytes) → IsIp ip → to_ip (ip_value ip) ≡ ip
to_ip-ip_value (a ∷ b ∷ c ∷ d ∷ []) h = ground arith
to_ip-ip_value [] h = absurd h
to_ip-ip_value (a ∷ []) h = absurd h
to_ip-ip_value (a ∷ b ∷ []) h = absurd h
to_ip-ip_value (a ∷ b ∷ c ∷ []) h = absurd h
to_ip-ip_value (a ∷ b ∷ c ∷ d ∷ e ∷ r) h = absurd h

-- `incIP` adds one to the number, with the carry through all four bytes, and 255.255.255.255 wraps
-- round to 0.0.0.0.
pub inc_ip-to_ip : (v : ℕ) → v < 2 ^ 32 → inc_ip (to_ip v) ≡ to_ip ((v + 1) % 2 ^ 32)
unfolding inc_ip
inc_ip-to_ip v h = ground arith

byte_decides : (x y u v m : ℕ) → u < m → v < m → x ≢ y → ltb x y ≡ ltb (x * m + u) (y * m + v)
byte_decides x y u v m hu hv ne = elim (Bool-cases (ltb x y)) [
  | inl l ↦
      let p : x < y = ltb→lt x y l in
      let step : (x + 1) * m ≤ y * m = grind arith in
      rw (l, lt→ltb (x * m + u) (y * m + v) (omega arith))
  | inr g ↦
      let q : y ≤ x = ltb→le x y g in
      let p : y < x = omega arith in
      let step : (y + 1) * m ≤ x * m = grind arith in
      rw (g, le→ltb (x * m + u) (y * m + v) (omega arith))
]

-- One byte of the comparison: the higher byte decides, and on a tie the rest does.
less_bytes-cons :
    (U V x y u v m : ℕ) (a b : Bytes)
    → U ≡ x * m + u
    → V ≡ y * m + v
    → u < m
    → v < m
    → less_bytes a b ≡ ltb u v
    → less_bytes (x ∷ a) (y ∷ b) ≡ ltb U V
unfolding less_bytes
less_bytes-cons U V x y u v m a b eu ev hu hv e = elim (Bool-cases (x == y)) [
  | inl same ↦ rw (same, e, eu, ev) (let eq : x ≡ y = ground arith in rw eq (ground arith))
  | inr other ↦ rw (other, eu, ev) (byte_decides x y u v m hu hv (ground arith))
]

-- On IPv4 addresses `lessIP` is the order of the numbers.
pub less_ip-to_ip :
    (u v : ℕ) (by_text : Bool)
    → u < 2 ^ 32
    → v < 2 ^ 32
    → less_ip (some (to_ip u)) (some (to_ip v)) by_text ≡ ltb u v
unfolding less_ip less_bytes
less_ip-to_ip u v t hu hv =
    let last : less_bytes (u % 256 ∷ []) (v % 256 ∷ []) ≡ ltb (u % 256) (v % 256) =
      less_bytes-cons (u % 256) (v % 256) (u % 256) (v % 256) 0 0 1 [] [] (omega arith)
        (omega arith) (omega arith) (omega arith) refl in
    let third =
      less_bytes-cons (u % 2 ^ 16) (v % 2 ^ 16) (u / 256 % 256) (v / 256 % 256) (u % 256) (v % 256)
        256 (u % 256 ∷ []) (v % 256 ∷ []) (omega arith) (omega arith) (omega arith) (omega arith)
        last in
    let second =
      less_bytes-cons (u % 2 ^ 24) (v % 2 ^ 24) (u / 2 ^ 16 % 256) (v / 2 ^ 16 % 256) (u % 2 ^ 16)
        (v % 2 ^ 16) (2 ^ 16) (u / 256 % 256 ∷ u % 256 ∷ []) (v / 256 % 256 ∷ v % 256 ∷ [])
        (omega arith) (omega arith) (omega arith) (omega arith) third in
    less_bytes-cons u v (u / 2 ^ 24 % 256) (v / 2 ^ 24 % 256) (u % 2 ^ 24) (v % 2 ^ 24) (2 ^ 24)
      (u / 2 ^ 16 % 256 ∷ u / 256 % 256 ∷ u % 256 ∷ [])
      (v / 2 ^ 16 % 256 ∷ v / 256 % 256 ∷ v % 256 ∷ []) (omega arith) (omega arith) (omega arith)
      (omega arith) second

-- The three private ranges, 10.0.0.0/8, 172.16.0.0/12 and 192.168.0.0/16, as intervals of numbers.
pub is_private_ipv4_iff :
    (v : ℕ)
    → v < 2 ^ 32
    → (is_private_ipv4 (some (to_ip v)) ≡ true)
      ↔ ((v / 2 ^ 24 ≡ 10) ⊎ ((v / 2 ^ 20 ≡ 172 * 16 + 1) ⊎ (v / 2 ^ 16 ≡ 192 * 256 + 168)))
unfolding is_private_ipv4
is_private_ipv4_iff v h = ground arith
