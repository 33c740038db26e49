-- ===== src/Convert/Int/Spec/Exact.antt =====
-- The converters against the exact conversion.
use mpt_base.Prelude.{
  ◌≡◌, Bool, true, false, some, none, arith, ◌+◌, ◌≤◌, ℕ, ◌%◌, ◌^◌, ◌↔◌, ◌*◌, if◌then◌else◌, ok,
  err, bad_value, bad_type,
}
use mpt_base.Prelude.Int.{ℤ, pos, negsuc, to_bits}
use mpt_base.Convert.Int.{Outcome, returns, word, to_int}
use mpt_base.Convert.Int.Spec.{
  Source, int8, uint16, Target, b, n, i, type_code, size_of, bits_of, fits, read_as, holds, convert,
  checked, is_gap,
}

-- What is stored is read back, through the target type, as the value.
read_as-to_bits : (k : Target) (v : ℤ) → fits k v ≡ true → read_as k (to_bits (bits_of k) v) ≡ v
read_as-to_bits b (pos m) h = ground arith
read_as-to_bits b (negsuc m) h = ground arith
read_as-to_bits n (pos m) h = ground arith
read_as-to_bits n (negsuc m) h = ground arith
read_as-to_bits i (pos m) h = ground arith
read_as-to_bits i (negsuc m) h = ground arith
read_as-to_bits _ (pos m) h = ground arith
read_as-to_bits _ (negsuc m) h = ground arith

-- The outcome is a store of the target's size that reads back as the value.
abbrev pub Keeps : Target → ℤ → Outcome → Type 0
Keeps k v o =
    (w : ℕ) × (o ≡ returns (ok (size_of k)) (some (word (bits_of k) w))) × (read_as k w ≡ v)

module _ (isgraph : ℤ → Bool) (long_double : Bool) where
  convert-checked :
      (s : Source) (k : Target) (v : ℤ)
      → holds s v ≡ true
      → is_gap s k ≡ false
      → convert isgraph long_double s (some v) (type_code k) true ≡ checked k v
  unfolding convert
  convert-checked int8 b (pos m) h g = ground arith
  convert-checked _ _ (pos m) h g = ground arith
  convert-checked _ _ (negsuc m) h g = ground arith

  -- For every source type, every integer target type but the pair `uint16_t` to `n`, and every
  -- value of the source type: if the value lies in the target's range, the conversion returns the
  -- target's size and stores bits that read back, through the target type, as the value; if it does
  -- not, the conversion returns BadValue and stores nothing.
  pub convert_exact :
      (s : Source) (k : Target) (v : ℤ)
      → holds s v ≡ true
      → is_gap s k ≡ false
      → (fits k v ≡ true → Keeps k v (convert isgraph long_double s (some v) (type_code k) true))
        × (fits k v ≡ false
            → convert isgraph long_double s (some v) (type_code k) true
              ≡ returns (err bad_value) none)
  convert_exact s k v h g = (
    λ e. (to_bits (bits_of k) v, ground (arith, convert-checked s k v h g), read_as-to_bits k v e),
    λ e. ground (arith, convert-checked s k v h g),
  )

  -- Among all source types, BadType answers to the target `n` (`int16_t`) exactly for `uint16_t`.
  pub convert_gap :
      (s : Source) (v : ℤ)
      → holds s v ≡ true
      → (convert isgraph long_double s (some v) b'n' true ≡ returns (err bad_type) none)
        ↔ (s ≡ uint16)
  unfolding convert
  convert_gap int8 (pos m) h = (ground arith, ground arith)
  convert_gap _ (pos m) h = (ground arith, ground arith)
  convert_gap _ (negsuc m) h = (ground arith, ground arith)

  -- Every source type has the same case for `c`, on the value cut to C's `int`.
  convert_c :
      (s : Source) (v : ℤ)
      → convert isgraph long_double s (some v) b'c' true ≡ (
          if isgraph (to_int v)
          then returns (ok 1) (some (word 8 (to_bits 8 v)))
          else returns (err bad_value) none)
  unfolding convert
  convert_c int8 v = ground arith
  convert_c _ v = ground arith

  -- If the C library's `isgraph` accepts 33 to 126 at most, then the conversion to `c` of a value
  -- that `int` can hold stores each value that `isgraph` accepts, as one byte, and refuses every
  -- other with BadValue. This is so for all eight source types.
  pub convert_char :
      (s : Source) (v : ℤ)
      → fits i v ≡ true
      → ((m : ℕ) → isgraph (pos m) ≡ true → (33 ≤ m) × (m ≤ 126))
      → ((m : ℕ) → isgraph (negsuc m) ≡ false)
      → (isgraph v ≡ true
          → (c : ℕ) × (convert isgraph long_double s (some v) b'c' true
              ≡ returns (ok 1) (some (word 8 c)))
            × (v ≡ pos c))
        × (isgraph v ≡ false
            → convert isgraph long_double s (some v) b'c' true ≡ returns (err bad_value) none)
  convert_char s (pos m) f ascii neg =
      let same : to_int (pos m) ≡ pos m = read_as-to_bits i (pos m) f in
      (
        λ e. (m % 2 ^ 8, rw (convert_c s (pos m), same, e), ground (arith, ascii m)),
        λ e. rw (convert_c s (pos m), same, e),
      )
  convert_char s (negsuc m) f ascii neg =
      let same : to_int (negsuc m) ≡ negsuc m = read_as-to_bits i (negsuc m) f in
      (λ e. cc (neg m), λ e. rw (convert_c s (negsuc m), same, e))

  -- Above the range of `int` the conversion to `c` may store a value that is not the source's: for
  -- every multiple of 2 ^ 32 and every character `c` that `isgraph` accepts, the sum of the two is
  -- stored as `c`, if the source type holds it.
  pub convert_char_wraps :
      (s : Source) (k c : ℕ)
      → holds s (pos (2 ^ 32 * k + c)) ≡ true
      → c ≤ 126
      → isgraph (pos c) ≡ true
      → convert isgraph long_double s (some (pos (2 ^ 32 * k + c))) b'c' true
        ≡ returns (ok 1) (some (word 8 c))
  convert_char_wraps s k c h small e =
      let cut : to_int (pos (2 ^ 32 * k + c)) ≡ pos c = ground arith in
      let byte : (2 ^ 32 * k + c) % 2 ^ 8 ≡ c = omega arith in
      rw (convert_c s (pos (2 ^ 32 * k + c)), cut, e, byte)
