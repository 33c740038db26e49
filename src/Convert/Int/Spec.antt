-- ===== src/Convert/Int/Spec.antt =====
-- The integer targets of mptcore/convert/data_convert_int.c, and what a conversion between two
-- integer types ought to do, apart from the code.
pub mod Exact
pub mod Null
use mpt_base.Prelude.{
  ℕ, Bool, true, false, Option, some, none, ◌^◌, ◌-◌, if◌then◌else◌, bad_value, ok, err,
}
use mpt_base.Prelude.Int.{ℤ, in_signed, in_unsigned, read_signed, read_unsigned, to_bits}
use mpt_base.Convert.Int.{Outcome, returns, Slot, word}
use mpt_base.Convert.Int.Signed.{convert_int8, convert_int16, convert_int32, convert_int64}
use mpt_base.Convert.Int.Unsigned.{convert_uint8, convert_uint16, convert_uint32, convert_uint64}

-- The converters, by the type of their source.
pub data Source : Type 0 where
  int8 int16 int32 int64 uint8 uint16 uint32 uint64 : Source

-- The integer types that a `switch` may name, `l` for `long` among them.
pub data Target : Type 0 where
  b n i x l y q u t : Target

abbrev pub type_code : Target → ℕ
type_code b = b'b'
type_code n = b'n'
type_code i = b'i'
type_code x = b'x'
type_code l = b'l'
type_code y = b'y'
type_code q = b'q'
type_code u = b'u'
type_code t = b't'

abbrev pub size_of : Target → ℕ
size_of b = 1
size_of n = 2
size_of i = 4
size_of x = 8
size_of l = 8
size_of y = 1
size_of q = 2
size_of u = 4
size_of t = 8

abbrev pub bits_of : Target → ℕ
bits_of b = 8
bits_of n = 16
bits_of i = 32
bits_of x = 64
bits_of l = 64
bits_of y = 8
bits_of q = 16
bits_of u = 32
bits_of t = 64

abbrev pub is_signed : Target → Bool
is_signed b = true
is_signed n = true
is_signed i = true
is_signed x = true
is_signed l = true
is_signed _ = false

-- The value lies in the range of the target.
abbrev pub fits : Target → ℤ → Bool
fits k v = if is_signed k then in_signed (bits_of k) v else in_unsigned (bits_of k) v

-- The value that a program reads at `dest` through the target type.
abbrev pub read_as : Target → ℕ → ℤ
read_as k w = if is_signed k then read_signed (bits_of k) w else read_unsigned w

-- The value is one of the source type.
abbrev pub holds : Source → ℤ → Bool
holds int8 v = in_signed 8 v
holds int16 v = in_signed 16 v
holds int32 v = in_signed 32 v
holds int64 v = in_signed 64 v
holds uint8 v = in_unsigned 8 v
holds uint16 v = in_unsigned 16 v
holds uint32 v = in_unsigned 32 v
holds uint64 v = in_unsigned 64 v

module _ (isgraph : ℤ → Bool) (long_double : Bool) where
  unfoldable pub convert : Source → Option ℤ → ℕ → Bool → Outcome
  unfolding convert_int8 convert_int16 convert_int32 convert_int64 convert_uint8 convert_uint16
      convert_uint32 convert_uint64
  convert int8 = convert_int8 isgraph long_double
  convert int16 = convert_int16 isgraph long_double
  convert int32 = convert_int32 isgraph long_double
  convert int64 = convert_int64 isgraph long_double
  convert uint8 = convert_uint8 isgraph long_double
  convert uint16 = convert_uint16 isgraph long_double
  convert uint32 = convert_uint32 isgraph long_double
  convert uint64 = convert_uint64 isgraph long_double

-- The conversion that keeps the value, or refuses it.
abbrev pub checked : Target → ℤ → Outcome
checked k v =
    if fits k v
    then returns (ok (size_of k)) (some (word (bits_of k) (to_bits (bits_of k) v)))
    else returns (err bad_value) none

-- The one pair of integer types that has no case: `uint16_t` to `int16_t`.
abbrev pub is_gap : Source → Target → Bool
is_gap uint16 n = true
is_gap _ _ = false
