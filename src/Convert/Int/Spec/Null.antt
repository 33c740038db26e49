-- ===== src/Convert/Int/Spec/Null.antt =====
-- A null `dest`: which conversions look at it before they write.
use mpt_base.Prelude.{ℕ, ◌≡◌, Bool, true, false, Option, ◌||◌, ◌&&◌, ◌==◌, ◌↔◌, arith}
use mpt_base.Prelude.Int.{ℤ}
use mpt_base.Convert.Int.{fault}
use mpt_base.Convert.Int.Spec.{Source, int8, uint8, uint16, convert}

-- The targets that are written with no look at `dest`.
abbrev pub writes_unchecked : Bool → Source → ℕ → Bool
writes_unchecked long_double uint8 type =
    type == b'i' || type == b'u' || type == b'x' || type == b't' || type == b'l'
writes_unchecked long_double uint16 type = long_double && type == b'e'
writes_unchecked long_double _ type = false

-- A query of the size with a null `dest` writes through it for the targets `i`, `u`, `x`, `t` and
-- `l` of a `uint8_t` and for the extended float of a `uint16_t`, and for no other type code and
-- source type, whatever the value is.
pub convert_null :
    (isgraph : ℤ → Bool) (long_double : Bool) (s : Source) (from : Option ℤ) (type : ℕ)
    → (convert isgraph long_double s from type false ≡ fault)
      ↔ (writes_unchecked long_double s type ≡ true)
unfolding convert
convert_null isgraph long_double int8 from type = (ground arith, ground arith)
convert_null isgraph long_double _ from type = (ground arith, ground arith)
