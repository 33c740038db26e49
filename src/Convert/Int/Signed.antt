-- ===== src/Convert/Int/Signed.antt =====
-- mptcore/convert/data_convert_int.c: the sources int8_t, int16_t, int32_t and int64_t.
-- The cases of each `switch` stand in its order; a case that falls through repeats the store.
use mpt_base.Prelude.{
  ℕ, ◌-◌, ◌^◌, Bool, not, ◌||◌, ◌&&◌, Option, ◌==◌, if◌then◌else◌, bad_value, bad_type,
}
use mpt_base.Prelude.Int.{ℤ, to_bits, is_neg, above, below_negsuc}
use mpt_base.Convert.Int.{
  word, real, single, double, extended, Outcome, store, refuse, store_vector, extended_size,
  to_vector, resolve_long, to_int, or_zero,
}

-- `isgraph` is the C library's; `long_double` says whether the build defines
-- _MPT_FLOAT_EXTENDED_H. The value 0 stands for a null `from`.
module _ (isgraph : ℤ → Bool) (long_double : Bool) where
  unfoldable pub convert_int8 : Option ℤ → ℕ → Bool → Outcome
  unfolding resolve_long
  convert_int8 from type dest =
      let v = or_zero from in
      let type = resolve_long type in
      if type == b'c'
      then (if not (isgraph (to_int v))
          then refuse bad_value
          else store dest 1 (word 8 (to_bits 8 v)))
      else if type == b'y'
      then (if is_neg v then refuse bad_value else store dest 1 (word 8 (to_bits 8 v)))
      else if type == b'b'
      then store dest 1 (word 8 (to_bits 8 v))
      else if type == b'q'
      then (if is_neg v then refuse bad_value else store dest 2 (word 16 (to_bits 16 v)))
      else if type == b'n'
      then store dest 2 (word 16 (to_bits 16 v))
      else if type == b'u'
      then (if is_neg v then refuse bad_value else store dest 4 (word 32 (to_bits 32 v)))
      else if type == b'i'
      then store dest 4 (word 32 (to_bits 32 v))
      else if type == b't'
      then (if is_neg v then refuse bad_value else store dest 8 (word 64 (to_bits 64 v)))
      else if type == b'x'
      then store dest 8 (word 64 (to_bits 64 v))
      else if type == b'f'
      then store dest 4 (real single v)
      else if type == b'd'
      then store dest 8 (real double v)
      else if long_double && type == b'e'
      then store dest extended_size (real extended v)
      else if type == to_vector b'b'
      then store_vector dest 1
      else refuse bad_type

  unfoldable pub convert_int16 : Option ℤ → ℕ → Bool → Outcome
  unfolding resolve_long
  convert_int16 from type dest =
      let v = or_zero from in
      let type = resolve_long type in
      if type == b'c'
      then (if not (isgraph (to_int v))
          then refuse bad_value
          else store dest 1 (word 8 (to_bits 8 v)))
      else if type == b'b'
      then (if below_negsuc (2 ^ 7 - 1) v || above (2 ^ 7 - 1) v
          then refuse bad_value
          else store dest 1 (word 8 (to_bits 8 v)))
      else if type == b'y'
      then (if is_neg v || above (2 ^ 8 - 1) v
          then refuse bad_value
          else store dest 1 (word 8 (to_bits 8 v)))
      else if type == b'q'
      then (if is_neg v then refuse bad_value else store dest 2 (word 16 (to_bits 16 v)))
      else if type == b'n'
      then store dest 2 (word 16 (to_bits 16 v))
      else if type == b'u'
      then (if is_neg v then refuse bad_value else store dest 4 (word 32 (to_bits 32 v)))
      else if type == b'i'
      then store dest 4 (word 32 (to_bits 32 v))
      else if type == b't'
      then (if is_neg v then refuse bad_value else store dest 8 (word 64 (to_bits 64 v)))
      else if type == b'x'
      then store dest 8 (word 64 (to_bits 64 v))
      else if type == b'f'
      then store dest 8 (real single v)
      else if type == b'd'
      then store dest 8 (real double v)
      else if long_double && type == b'e'
      then store dest extended_size (real extended v)
      else if type == to_vector b'n'
      then store_vector dest 2
      else refuse bad_type

  unfoldable pub convert_int32 : Option ℤ → ℕ → Bool → Outcome
  unfolding resolve_long
  convert_int32 from type dest =
      let v = or_zero from in
      let type = resolve_long type in
      if type == b'c'
      then (if not (isgraph (to_int v))
          then refuse bad_value
          else store dest 1 (word 8 (to_bits 8 v)))
      else if type == b'b'
      then (if below_negsuc (2 ^ 7 - 1) v || above (2 ^ 7 - 1) v
          then refuse bad_value
          else store dest 1 (word 8 (to_bits 8 v)))
      else if type == b'y'
      then (if is_neg v || above (2 ^ 8 - 1) v
          then refuse bad_value
          else store dest 1 (word 8 (to_bits 8 v)))
      else if type == b'n'
      then (if below_negsuc (2 ^ 15 - 1) v || above (2 ^ 15 - 1) v
          then refuse bad_value
          else store dest 2 (word 16 (to_bits 16 v)))
      else if type == b'q'
      then (if is_neg v || above (2 ^ 16 - 1) v
          then refuse bad_value
          else store dest 2 (word 16 (to_bits 16 v)))
      else if type == b'u'
      then (if is_neg v then refuse bad_value else store dest 4 (word 32 (to_bits 32 v)))
      else if type == b'i'
      then store dest 4 (word 32 (to_bits 32 v))
      else if type == b't'
      then (if is_neg v then refuse bad_value else store dest 8 (word 64 (to_bits 64 v)))
      else if type == b'x'
      then store dest 8 (word 64 (to_bits 64 v))
      else if type == b'f'
      then store dest 4 (real single v)
      else if type == b'd'
      then store dest 8 (real double v)
      else if long_double && type == b'e'
      then store dest extended_size (real extended v)
      else if type == to_vector b'i'
      then store_vector dest 4
      else refuse bad_type

  unfoldable pub convert_int64 : Option ℤ → ℕ → Bool → Outcome
  unfolding resolve_long
  convert_int64 from type dest =
      let v = or_zero from in
      let type = resolve_long type in
      if type == b'c'
      then (if not (isgraph (to_int v))
          then refuse bad_value
          else store dest 1 (word 8 (to_bits 8 v)))
      else if type == b'b'
      then (if below_negsuc (2 ^ 7 - 1) v || above (2 ^ 7 - 1) v
          then refuse bad_value
          else store dest 1 (word 8 (to_bits 8 v)))
      else if type == b'y'
      then (if is_neg v || above (2 ^ 8 - 1) v
          then refuse bad_value
          else store dest 1 (word 8 (to_bits 8 v)))
      else if type == b'n'
      then (if below_negsuc (2 ^ 15 - 1) v || above (2 ^ 15 - 1) v
          then refuse bad_value
          else store dest 2 (word 16 (to_bits 16 v)))
      else if type == b'q'
      then (if is_neg v || above (2 ^ 16 - 1) v
          then refuse bad_value
          else store dest 2 (word 16 (to_bits 16 v)))
      else if type == b'i'
      then (if below_negsuc (2 ^ 31 - 1) v || above (2 ^ 31 - 1) v
          then refuse bad_value
          else store dest 4 (word 32 (to_bits 32 v)))
      else if type == b'u'
      then (if is_neg v || above (2 ^ 32 - 1) v
          then refuse bad_value
          else store dest 4 (word 32 (to_bits 32 v)))
      else if type == b't'
      then (if is_neg v then refuse bad_value else store dest 8 (word 64 (to_bits 64 v)))
      else if type == b'x'
      then store dest 8 (word 64 (to_bits 64 v))
      else if type == b'f'
      then store dest 4 (real single v)
      else if type == b'd'
      then store dest 8 (real double v)
      else if long_double && type == b'e'
      then store dest extended_size (real extended v)
      else if type == to_vector b'x'
      then store_vector dest 8
      else refuse bad_type
