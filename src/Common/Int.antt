-- ===== src/Common/Int.antt =====
-- Signed integers over the native numbers: `negsuc n` is -(n + 1).
use Prim.Native.Nat.{ℕ}
use mathlib.Core.Bool.{Bool, true, false}
use ipscry.Common.Tests.{ltb}

pub data ℤ : Type 0 where
  pos : ℕ → ℤ
  negsuc : ℕ → ℤ

-- `x < 0`
abbrev pub is_negative : ℤ → Bool
is_negative (pos n) = false
is_negative (negsuc n) = true

-- `a < b`
abbrev pub ltℤ : ℤ → ℤ → Bool
ltℤ (pos a) (pos b) = ltb a b
ltℤ (pos a) (negsuc b) = false
ltℤ (negsuc a) (pos b) = true
ltℤ (negsuc a) (negsuc b) = ltb b a

abbrev pub pos_part : ℤ → ℕ
pos_part (pos n) = n
pos_part (negsuc n) = 0

-- -1, the value for "not measured"
abbrev pub minus_one : ℤ
minus_one = negsuc 0
