-- ===== src/Prelude/Int.antt =====
-- Signed integers over the native numbers, and the bit patterns of C's integer types.
use Prim.Native.Nat.{ℕ, ◌-◌, ◌%◌, ◌^◌}
use Prim.Native.Nat.{◌≤◌, ◌<◌}
use mathlib.Core.Path.{◌≡◌}
use native.Mathlib.Omega.{arith}
use mathlib.Core.Bool.{Bool, true, false}
use mpt_base.Prelude.Tests.{ltb, if◌then◌else◌}
use mpt_base.Prelude.Errors.{Result, ok, err, negative}

-- `negsuc n` is -(n + 1).
pub data ℤ : Type 0 where
  pos : ℕ → ℤ
  negsuc : ℕ → ℤ

-- The bit pattern that a store to `w` bits of memory leaves, and the two readings of a pattern.
abbrev pub to_bits : ℕ → ℤ → ℕ
to_bits w (pos n) = n % 2 ^ w
to_bits w (negsuc n) = 2 ^ w - 1 - n % 2 ^ w

abbrev pub read_signed : ℕ → ℕ → ℤ
read_signed w b = if ltb b (2 ^ (w - 1)) then pos b else negsuc (2 ^ w - 1 - b)

abbrev pub read_unsigned : ℕ → ℤ
read_unsigned b = pos b

-- The range of a signed or unsigned type of `w` bits.
abbrev pub in_signed : ℕ → ℤ → Bool
in_signed w (pos n) = ltb n (2 ^ (w - 1))
in_signed w (negsuc n) = ltb n (2 ^ (w - 1))

abbrev pub in_unsigned : ℕ → ℤ → Bool
in_unsigned w (pos n) = ltb n (2 ^ w)
in_unsigned w (negsuc n) = false

-- `val < 0`, `val > n` and `val < -(n + 1)`.
abbrev pub is_neg : ℤ → Bool
is_neg (pos n) = false
is_neg (negsuc n) = true

abbrev pub above : ℕ → ℤ → Bool
above m (pos n) = ltb m n
above m (negsuc n) = false

abbrev pub below_negsuc : ℕ → ℤ → Bool
below_negsuc m (pos n) = false
below_negsuc m (negsuc n) = ltb m n

-- A size as an int: the low 32 bits, read with their sign.
unfoldable pub as_int : ℕ → Result ℕ
as_int n = let k = n % 2 ^ 32 in if ltb k (2 ^ 31) then ok k else err (negative (2 ^ 32 - k))

pub as_int_low : (n : ℕ) → n % 2 ^ 32 < 2 ^ 31 → as_int n ≡ ok (n % 2 ^ 32)
unfolding as_int
as_int_low n h = ground arith

pub as_int_high : (n : ℕ) → 2 ^ 31 ≤ n % 2 ^ 32 → as_int n ≡ err (negative (2 ^ 32 - n % 2 ^ 32))
unfolding as_int
as_int_high n h = ground arith

pub as_int_small : (n : ℕ) → n < 2 ^ 31 → as_int n ≡ ok n
unfolding as_int
as_int_small n h = ground arith
