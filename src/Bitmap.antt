-- ===== src/Bitmap.antt =====
-- mptcore/array/bitmap.c: a map of bits in `len` bytes. A position is a `long`.
pub mod Laws
mod Tests
use Prim.Native.Nat.{bit_and, bit_or}
use mpt_base.Prelude.{
  ℕ, ◌+◌, ◌-◌, ◌/◌, ◌%◌, ◌^◌, ◌==◌, not, leb, if◌then◌else◌, Result, ok, err, missing_buffer,
}
use mpt_base.Prelude.Int.{ℤ, pos, negsuc}
use mpt_base.Prelude.Mem.{Bytes, update}

-- `base[off] & 1<<pos`, `base[off] |= 1<<pos` and `base[off] &= ~(1<<pos)` on a byte.
abbrev pub bit_of : ℕ → ℕ → ℕ
bit_of b p = bit_and b (2 ^ p)

abbrev pub with_bit : ℕ → ℕ → ℕ
with_bit b p = bit_or b (2 ^ p)

abbrev pub without_bit : ℕ → ℕ → ℕ
without_bit b p = bit_and b (255 - 2 ^ p)

-- `mpt_bitmap_set`
unfoldable pub bitmap_set : Bytes → ℕ → ℤ → Result ℕ × Bytes
bitmap_set m len (negsuc i) = (err missing_buffer, m)
bitmap_set m len (pos i) =
    if leb len (i / 8)
    then (err missing_buffer, m)
    else if not (bit_of (m (i / 8)) (i % 8) == 0)
    then (ok 0, m)
    else (ok 1, update m (i / 8) (with_bit (m (i / 8)) (i % 8)))

-- `mpt_bitmap_unset`
unfoldable pub bitmap_unset : Bytes → ℕ → ℤ → Result ℕ × Bytes
bitmap_unset m len (negsuc i) = (err missing_buffer, m)
bitmap_unset m len (pos i) =
    if leb len (i / 8)
    then (err missing_buffer, m)
    else if bit_of (m (i / 8)) (i % 8) == 0
    then (ok 0, m)
    else (ok 1, update m (i / 8) (without_bit (m (i / 8)) (i % 8)))

-- `mpt_bitmap_get`
unfoldable pub bitmap_get : Bytes → ℕ → ℤ → Result ℕ
bitmap_get m len (negsuc i) = err missing_buffer
bitmap_get m len (pos i) =
    if leb len (i / 8)
    then err missing_buffer
    else ok (if bit_of (m (i / 8)) (i % 8) == 0 then 0 else 1)
