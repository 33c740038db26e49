-- ===== src/Array/Fill.antt =====
-- mptcore/array/buffer_set.c: what setting data makes of the bytes of one buffer.
use mpt_base.Prelude.{
  ℕ, ◌+◌, ◌-◌, ◌/◌, ◌≤◌, ◌≡◌, refl, ap, true, ◌&&◌, ltb, leb, if◌then◌else◌, Option, none, some, ok,
  arith,
}
use mpt_base.Prelude.Mem.{Bytes}
use mpt_base.Array.{Buffer, Traits, buffer_set, set_typed, is_aligned, larger, fill}
use mpt_base.Array.Content.{IsValid, at, SameHeader, SameHeader-update}

abbrev pub byte_of : Option Bytes → ℕ → ℕ
byte_of none i = 0
byte_of (some d) i = d i

pub fill-byte :
    (b : Buffer) (pos : ℕ) (d : Option Bytes) (len i : ℕ)
    → fill b pos d len i
      ≡ (if leb pos i && ltb i (pos + len) then byte_of d (i - pos) else b.bytes i)
fill-byte b pos none len i = refl
fill-byte b pos (some e) len i = ground (arith, ap e (zero_plus (i - pos)))
  where
    zero_plus : (n : ℕ) → 0 + n ≡ n
    zero_plus n = omega arith

-- The bytes of `d`, or zeros, in `c` in the place of those of `b` from `pos` on.
pub record Sets (b : Buffer) (pos : ℕ) (d : Option Bytes) (len : ℕ) (c : Buffer) : Type 0 where
  pub valid : IsValid c
  pub used : c.used ≡ larger b.used (pos + len)
  pub header : SameHeader b c
  pub bytes :
      (i : ℕ) → at c i ≡ (if leb pos i && ltb i (pos + len) then byte_of d (i - pos) else at b i)

module _ (b : Buffer) (pos : ℕ) (d : Option Bytes) (len : ℕ) (v : IsValid b) (p : pos ≤ b.used)
    (h : pos + len ≤ b.size) where
  abbrev filled : Buffer
  filled = record b { bytes = fill b pos d len; used = larger b.used (pos + len) }

  filled-Sets : Sets b pos d len filled
  filled-Sets = record {
    valid = record { used_in = ground (arith, v.used_in); small = v.small };
    used = refl;
    header = SameHeader-update b _ _;
    bytes = λ i. ground (arith, fill-byte b pos d len i);
  }

  set_raw : b.traits ≡ none → buffer_set b none pos d len ≡ (ok 0, filled)
  unfolding buffer_set
  set_raw e = ground (arith, e, v.small)

  set_same :
      (u : Traits)
      → b.traits ≡ some u
      → is_aligned (some u) b.used pos len ≡ true
      → buffer_set b (some u) pos d len ≡ (ok (len / u.size), filled)
  unfolding buffer_set set_typed
  set_same u e a = rw (e, buffer_set) (ground (arith, v.small))

  -- Data set in a valid buffer of the same type, on whole elements, from a place that is not behind
  -- its end, takes the place of the bytes there, and all others stay.
  pub buffer_set-Sets :
      (t : Option Traits)
      → b.traits ≡ t
      → is_aligned t b.used pos len ≡ true
      → (n : ℕ) × (c : Buffer) × (buffer_set b t pos d len ≡ (ok n, c)) × Sets b pos d len c
  buffer_set-Sets none e a = (0, filled, set_raw e, filled-Sets)
  buffer_set-Sets (some u) e a = (len / u.size, filled, set_same u e a, filled-Sets)
