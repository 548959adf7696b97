-- ===== src/Common/Bits.antt =====
-- Masks on one byte as arithmetic; each is a table over the bytes, checked by evaluation.
use Prim.Native.Nat.{ℕ, zero, suc, ◌+◌, ◌*◌, ◌/◌, ◌%◌, ◌<◌, bit_and, bit_or}
use mathlib.Core.Path.{◌≡◌, refl}
use mathlib.Core.Bool.{Bool, true, ◌&&◌}
use mathlib.Core.List.{List}
use native.Mathlib.Omega.{arith}
use ipscry.Common.Tests.{◌==◌, ==_iff}

abbrev pub IsByte : ℕ → Type 0
IsByte b = b < 256

abbrev pub Bytes : Type 0
Bytes = List ℕ

-- The test holds at every number below the bound.
unfoldable pub holds_below : ℕ → (ℕ → Bool) → Bool
holds_below zero test = true
holds_below (suc bound) test = holds_below bound test && test bound

pub holds_below_sound :
    (bound : ℕ) (test : ℕ → Bool) (b : ℕ)
    → holds_below bound test ≡ true
    → b < bound
    → test b ≡ true
unfolding holds_below
holds_below_sound zero test b table small = absurd (omega arith)
holds_below_sound (suc bound) test b table small = ground (arith, holds_below_sound bound test b)

-- Two functions agree below `n`.
pub agree_below :
    (n : ℕ) (f g : ℕ → ℕ) → holds_below n (λ x. f x == g x) ≡ true → (x : ℕ) → x < n → f x ≡ g x
agree_below n f g h x lt = (==_iff (f x) (g x)).0 (holds_below_sound n _ x h lt)

pub low_seven : (b : ℕ) → b < 256 → bit_and b 0x7f ≡ b % 128
unfolding holds_below
low_seven = agree_below 256 _ _ refl

pub top_bit : (b : ℕ) → b < 256 → bit_and b 0x80 ≡ b / 128 * 128
unfolding holds_below
top_bit = agree_below 256 _ _ refl

pub set_top_bit : (b : ℕ) → b < 128 → bit_or 0x80 b ≡ b + 128
unfolding holds_below
set_top_bit = agree_below 128 _ _ refl

pub top_two_bits : (b : ℕ) → b < 256 → bit_and b 0xc0 ≡ b / 64 * 64
unfolding holds_below
top_two_bits = agree_below 256 _ _ refl

pub low_bit : (b : ℕ) → b < 256 → bit_and b 1 ≡ b % 2
unfolding holds_below
low_bit = agree_below 256 _ _ refl
