-- ===== src/Convert/Int.antt =====
-- mptcore/convert/data_convert_int.c: the eight converters of integer data, and the type codes of
-- mptcore/types/type_int.c and mptcore/types.h that they use.
pub mod Signed
pub mod Unsigned
pub mod Spec
mod Tests
use mpt_base.Prelude.{
  ℕ, ◌+◌, ◌-◌, ◌*◌, ◌≤◌, ◌<◌, Bool, true, false, ◌&&◌, Option, none, some, ◌==◌, leb, if◌then◌else◌,
  Error, bad_value, bad_type, missing_data, Result, ok, err,
}
use mpt_base.Prelude.Int.{ℤ, pos, to_bits, read_signed}

-- The bytes at `dest`: an integer's bit pattern of a width, the C conversion of an integer to a
-- floating point type, or the `struct iovec` that refers to the source value of some bytes.
pub data Real : Type 0 where
  single double extended : Real

pub data Slot : Type 0 where
  word : ℕ → ℕ → Slot
  real : Real → ℤ → Slot
  vector : ℕ → Slot

-- What a call does: it stops at a null pointer, or returns, with what it has written to `dest`.
pub data Outcome : Type 0 where
  fault : Outcome
  returns : Result ℕ → Option Slot → Outcome

-- `if (dest) *dest = …; return size;`, the same with no test of `dest`, and `return error;`
abbrev pub store : Bool → ℕ → Slot → Outcome
store dest size s = returns (ok size) (if dest then some s else none)

abbrev pub store_unchecked : Bool → ℕ → Slot → Outcome
store_unchecked dest size s = if dest then returns (ok size) (some s) else fault

abbrev pub refuse : Error → Outcome
refuse e = returns (err e) none

-- `sizeof(*vec)` and `sizeof(long double)` of the 64-bit ABI.
abbrev pub iovec_size : ℕ
iovec_size = 16

abbrev pub extended_size : ℕ
extended_size = 16

-- The branch of a vector type, over a source value of `n` bytes.
abbrev pub store_vector : Bool → ℕ → Outcome
store_vector dest n =
    if dest then returns (ok iovec_size) (some (vector n)) else refuse missing_data

unfoldable pub type_int : ℕ → ℕ
type_int len =
    if len == 1
    then b'b'
    else if len == 2
    then b'n'
    else if len == 4
    then b'i'
    else if len == 8
    then b'x'
    else 0

unfoldable pub type_uint : ℕ → ℕ
type_uint len =
    if len == 1
    then b'y'
    else if len == 2
    then b'q'
    else if len == 4
    then b'u'
    else if len == 8
    then b't'
    else 0

-- `MPT_type_toVector`
abbrev pub to_vector : ℕ → ℕ
to_vector v = if leb 0x60 v && leb v 0x7a then v - 0x60 + 0x40 else 0

-- `sizeof(long)` is 8.
unfoldable pub resolve_long : ℕ → ℕ
unfolding type_int
resolve_long type = if type == b'l' then type_int 8 else type

-- The conversion of an argument to C's `int`, and `from ? *from : 0`.
abbrev pub to_int : ℤ → ℤ
to_int v = read_signed 32 (to_bits 32 v)

abbrev pub or_zero : Option ℤ → ℤ
or_zero none = pos 0
or_zero (some v) = v
