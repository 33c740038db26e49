-- ===== src/Hash.antt =====
-- mptcore/misc/hash_djb2.c, hash_smdb.c and hash.c: hashes of counted data and of strings, and the
-- choice of the default one.
pub mod Laws
mod Tests
use Prim.Native.Nat.{bit_xor}
use mpt_base.Prelude.{
  ℕ, zero, suc, ◌+◌, ◌-◌, ◌*◌, ◌^◌, ◌%◌, Bool, true, false, ◌&&◌, Option, none, some, List, [], ◌∷◌,
  ◌==◌, leb, ltb, if◌then◌else◌, map, Result, ok, err, bad_operation, bad_argument,
}
use mpt_base.Prelude.Mem.{Bytes}

-- A `char`, which has a sign, as an `uintptr_t`.
abbrev pub char_word : ℕ → ℕ
char_word c = if ltb c 128 then c else c + (2 ^ 64 - 256)

-- One character: `(hash * 33) ^ *str` and `(hash * 65599) + *str`.
abbrev pub djb2_step : ℕ → ℕ → ℕ
djb2_step h c = bit_xor (h * 33 % 2 ^ 64) (char_word c)

abbrev pub smdb_step : ℕ → ℕ → ℕ
smdb_step h c = (h * 65599 % 2 ^ 64 + char_word c) % 2 ^ 64

module _ (step : ℕ → ℕ → ℕ) (m : Bytes) where
  -- `while (len--)`
  unfoldable pub hash_counted : (a h n : ℕ) → ℕ
  hash_counted a h zero = h
  hash_counted a h (suc n) = hash_counted (a + 1) (step h (m a)) n

  -- `while (*str)`, with fuel.
  unfoldable pub hash_string : (fuel a h : ℕ) → Option ℕ
  hash_string zero a h = none
  hash_string (suc fuel) a h =
      let rest = hash_string fuel (a + 1) (step h (m a)) in if m a == 0 then some h else rest

-- `mpt_hash_djb2` and `mpt_hash_smdb`: no data has the hash 0, and a negative length is `none`.
unfoldable pub hash_djb2 : (fuel : ℕ) → Option Bytes → (a : ℕ) (len : Option ℕ) → Option ℕ
hash_djb2 fuel none a len = some 0
hash_djb2 fuel (some m) a none = hash_string djb2_step m fuel a 5381
hash_djb2 fuel (some m) a (some n) = some (hash_counted djb2_step m a 5381 n)

unfoldable pub hash_smdb : (fuel : ℕ) → Option Bytes → (a : ℕ) (len : Option ℕ) → Option ℕ
hash_smdb fuel none a len = some 0
hash_smdb fuel (some m) a none = hash_string smdb_step m fuel a 0
hash_smdb fuel (some m) a (some n) = some (hash_counted smdb_step m a 0 n)

-- The functions that `hashFcn` may point to.
pub data HashFunction : Type 0 where
  djb2 smdb : HashFunction

-- `strcasecmp(a, b) == 0` on strings of the C locale.
abbrev pub lower : ℕ → ℕ
lower c = if leb 65 c && leb c 90 then c + 32 else c

unfoldable pub same_text : List ℕ → List ℕ → Bool
same_text [] [] = true
same_text [] (d ∷ t) = false
same_text (c ∷ s) [] = false
same_text (c ∷ s) (d ∷ t) = (lower c == lower d) && same_text s t

abbrev pub djb2_name : List ℕ
djb2_name = 100 ∷ 106 ∷ 98 ∷ 50 ∷ []

abbrev pub smdb_name : List ℕ
smdb_name = 115 ∷ 109 ∷ 100 ∷ 98 ∷ []

-- `_mpt_hash_set`: the first condition holds for an empty name, and for one that differs from
-- "djb2".
unfoldable pub hash_set : Option HashFunction → Option (List ℕ) → Option HashFunction × Result ℕ
hash_set (some f) name = (some f, err bad_operation)
hash_set none none = (some djb2, ok 0)
hash_set none (some []) = (some djb2, ok 0)
hash_set none (some (c ∷ s)) =
    if same_text (c ∷ s) djb2_name
    then (if same_text (c ∷ s) smdb_name then (some smdb, ok 1) else (none, err bad_argument))
    else (some djb2, ok 0)

-- `mpt_hash`
unfoldable pub hash :
    (fuel : ℕ)
    → Option HashFunction
    → Option Bytes
    → (a : ℕ) (len : Option ℕ) → HashFunction × Option ℕ
hash fuel none m a len = (djb2, hash_djb2 fuel m a len)
hash fuel (some djb2) m a len = (djb2, hash_djb2 fuel m a len)
hash fuel (some smdb) m a len = (smdb, hash_smdb fuel m a len)
