-- ===== src/Prelude/Errors.antt =====
-- `enum MPT_ENUM(Errors)` of mptcore/core.h, the integer results of the C functions (a negative one
-- is an error code, any other a value), and runs that a fault ends: an access outside of an object,
-- a read of what was never written, or a division by zero. `negative n` is the result -n of a size
-- that its int does not hold, not a code of the enum.
use Prim.Native.Nat.{ℕ}

pub data Error : Type 0 where
  bad_argument bad_value bad_type bad_operation bad_encoding missing_data missing_buffer : Error
  negative : ℕ → Error

pub data Result {ℓ} (A : Type ℓ) : Type ℓ where
  ok : A → Result A
  err : Error → Result A

pub data Run {ℓ} (A : Type ℓ) : Type ℓ where
  done : A → Run A
  fault : Run A

infixl 5 ◌>>=◌
abbrev pub ◌>>=◌ {ℓ κ} : {A : Type ℓ} {B : Type κ} → Run A → (A → Run B) → Run B
done a >>= f = f a
fault >>= f = fault
