-- ===== src/Convert/Int/Tests.antt =====
-- Runs of the converters, and their theorems at concrete values.
use mpt_base.Prelude.{◌≡◌, refl, Bool, true, false, some, none, ok, err, bad_value, leb, ◌&&◌}
use mpt_base.Prelude.Int.{ℤ, pos, negsuc}
use mpt_base.Convert.Int.{returns, word}
use mpt_base.Convert.Int.Spec.{int32, b, convert}
use mpt_base.Convert.Int.Spec.Exact.{Keeps, convert_exact}

-- The graphic characters of ASCII.
abbrev graphic : ℤ → Bool
graphic (pos m) = leb 33 m && leb m 126
graphic (negsuc m) = false

negative_byte :
    convert graphic true int32 (some (negsuc 4)) b'b' true ≡ returns (ok 1) (some (word 8 251))
unfolding convert
negative_byte = refl

too_large : convert graphic true int32 (some (pos 200)) b'b' true ≡ returns (err bad_value) none
unfolding convert
too_large = refl

convert_exact_example :
    (true ≡ true → Keeps b (negsuc 4) (convert graphic true int32 (some (negsuc 4)) b'b' true))
    × (true ≡ false
        → convert graphic true int32 (some (negsuc 4)) b'b' true ≡ returns (err bad_value) none)
convert_exact_example = convert_exact graphic true int32 b (negsuc 4) refl refl
