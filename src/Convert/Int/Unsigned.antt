-- ===== src/Convert/Int/Unsigned.antt =====
-- mptcore/convert/data_convert_int.c: the sources uint8_t, uint16_t, uint32_t and uint64_t.
use mpt_base.Prelude.{
  ℕ, ◌-◌, ◌^◌, Bool, not, ◌||◌, ◌&&◌, Option, ◌==◌, if◌then◌else◌, bad_value, bad_type, none, some,
  missing_data, err,
}
use mpt_base.Prelude.Int.{ℤ, to_bits, above}
use mpt_base.Convert.Int.{
  word, real, vector, single, double, extended, Outcome, returns, store, store_unchecked, refuse,
  store_vector, extended_size, to_vector, resolve_long, to_int, or_zero,
}

-- `isgraph` is the C library's; `long_double` says whether the build defines
-- _MPT_FLOAT_EXTENDED_H. The value 0 stands for a null `from`.
module _ (isgraph : ℤ → Bool) (long_double : Bool) where
  unfoldable pub convert_uint8 : Option ℤ → ℕ → Bool → Outcome
  unfolding resolve_long
  convert_uint8 from type dest =
      let v = or_zero from in
      let type = resolve_long type in
      if type == b'c'
      then (if not (isgraph (to_int v))
          then refuse bad_value
          else store dest 1 (word 8 (to_bits 8 v)))
      else if type == b'b'
      then (if above (2 ^ 7 - 1) v then refuse bad_value else store dest 1 (word 8 (to_bits 8 v)))
      else if type == b'y'
      then store dest 1 (word 8 (to_bits 8 v))
      else if type == b'n' || type == b'q'
      then store dest 2 (word 16 (to_bits 16 v))
      else if type == b'i' || type == b'u'
      then store_unchecked dest 4 (word 32 (to_bits 32 v))
      else if type == b'x' || type == b't'
      then store_unchecked dest 8 (word 64 (to_bits 64 v))
      else if type == b'f'
      then store dest 4 (real single v)
      else if type == b'd'
      then store dest 8 (real double v)
      else if long_double && type == b'e'
      then store dest 8 (real extended v)
      else if type == to_vector b'y'
      then store_vector dest 1
      else refuse bad_type

  unfoldable pub convert_uint16 : Option ℤ → ℕ → Bool → Outcome
  unfolding resolve_long
  convert_uint16 from type dest =
      let v = or_zero from in
      let type = resolve_long type in
      if type == b'c'
      then (if not (isgraph (to_int v))
          then refuse bad_value
          else store dest 1 (word 8 (to_bits 8 v)))
      else if type == b'b'
      then (if above (2 ^ 7 - 1) v then refuse bad_value else store dest 1 (word 8 (to_bits 8 v)))
      else if type == b'y'
      then (if above (2 ^ 8 - 1) v then refuse bad_value else store dest 1 (word 8 (to_bits 8 v)))
      else if type == b'h'
      then (if above (2 ^ 15 - 1) v
          then refuse bad_value
          else store dest 2 (word 16 (to_bits 16 v)))
      else if type == b'q'
      then store dest 2 (word 16 (to_bits 16 v))
      else if type == b'u' || type == b'i'
      then store dest 4 (word 32 (to_bits 32 v))
      else if type == b't' || type == b'x'
      then store dest 8 (word 64 (to_bits 64 v))
      else if type == b'f'
      then store dest 4 (real single v)
      else if type == b'd'
      then store dest 8 (real double v)
      else if long_double && type == b'e'
      then store_unchecked dest extended_size (real extended v)
      else if type == to_vector b'q'
      then returns (err missing_data) (if dest then some (vector 2) else none)
      else refuse bad_type

  unfoldable pub convert_uint32 : Option ℤ → ℕ → Bool → Outcome
  unfolding resolve_long
  convert_uint32 from type dest =
      let v = or_zero from in
      let type = resolve_long type in
      if type == b'c'
      then (if not (isgraph (to_int v))
          then refuse bad_value
          else store dest 1 (word 8 (to_bits 8 v)))
      else if type == b'b'
      then (if above (2 ^ 7 - 1) v then refuse bad_value else store dest 1 (word 8 (to_bits 8 v)))
      else if type == b'y'
      then (if above (2 ^ 8 - 1) v then refuse bad_value else store dest 1 (word 8 (to_bits 8 v)))
      else if type == b'n'
      then (if above (2 ^ 15 - 1) v
          then refuse bad_value
          else store dest 2 (word 16 (to_bits 16 v)))
      else if type == b'q'
      then (if above (2 ^ 16 - 1) v
          then refuse bad_value
          else store dest 2 (word 16 (to_bits 16 v)))
      else if type == b'i'
      then (if above (2 ^ 31 - 1) v
          then refuse bad_value
          else store dest 4 (word 32 (to_bits 32 v)))
      else if type == b'u'
      then store dest 4 (word 32 (to_bits 32 v))
      else if type == b't' || type == b'x'
      then store dest 8 (word 64 (to_bits 64 v))
      else if type == b'f'
      then store dest 4 (real single v)
      else if type == b'd'
      then store dest 8 (real double v)
      else if long_double && type == b'e'
      then store dest extended_size (real extended v)
      else if type == to_vector b'u'
      then store_vector dest 4
      else refuse bad_type

  unfoldable pub convert_uint64 : Option ℤ → ℕ → Bool → Outcome
  unfolding resolve_long
  convert_uint64 from type dest =
      let v = or_zero from in
      let type = resolve_long type in
      if type == b'c'
      then (if not (isgraph (to_int v))
          then refuse bad_value
          else store dest 1 (word 8 (to_bits 8 v)))
      else if type == b'b'
      then (if above (2 ^ 7 - 1) v then refuse bad_value else store dest 1 (word 8 (to_bits 8 v)))
      else if type == b'y'
      then (if above (2 ^ 8 - 1) v then refuse bad_value else store dest 1 (word 8 (to_bits 8 v)))
      else if type == b'n'
      then (if above (2 ^ 15 - 1) v
          then refuse bad_value
          else store dest 2 (word 16 (to_bits 16 v)))
      else if type == b'q'
      then (if above (2 ^ 16 - 1) v
          then refuse bad_value
          else store dest 2 (word 16 (to_bits 16 v)))
      else if type == b'i'
      then (if above (2 ^ 31 - 1) v
          then refuse bad_value
          else store dest 4 (word 32 (to_bits 32 v)))
      else if type == b'u'
      then (if above (2 ^ 32 - 1) v
          then refuse bad_value
          else store dest 4 (word 32 (to_bits 32 v)))
      else if type == b'x'
      then (if above (2 ^ 63 - 1) v
          then refuse bad_value
          else store dest 8 (word 64 (to_bits 64 v)))
      else if type == b't'
      then store dest 8 (word 64 (to_bits 64 v))
      else if type == b'f'
      then store dest 4 (real single v)
      else if type == b'd'
      then store dest 8 (real double v)
      else if long_double && type == b'e'
      then store dest extended_size (real extended v)
      else if type == to_vector b't'
      then store_vector dest 8
      else refuse bad_type
