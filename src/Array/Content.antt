-- ===== src/Array/Content.antt =====
-- mptcore/array: what an insertion and a cut make of the bytes of one buffer.
use mpt_base.Prelude.{
  ℕ, ◌+◌, ◌-◌, ◌^◌, ◌<◌, ◌≤◌, ◌≡◌, refl, sym, ◌∙◌, true, false, ◌==◌, ltb, if◌then◌else◌, Option,
  none, some, ok, done, arith, Bool-cases, inl, inr,
}
use mpt_base.Prelude.Mem.{Bytes, blit}
use mpt_base.Array.{Buffer, Traits, buffer_insert, buffer_cut, is_aligned, larger, clear}

-- The part in use is inside of the data, which is smaller than the address space.
pub record IsValid (b : Buffer) : Type 0 where
  pub used_in : b.used ≤ b.size
  pub small : b.size < 2 ^ 63

-- The bytes of a buffer: zeros behind those in use.
abbrev pub at : Buffer → ℕ → ℕ
at b i = if ltb i b.used then b.bytes i else 0

-- What a change of the content leaves as it is.
pub record SameHeader (b c : Buffer) : Type 0 where
  pub size : c.size ≡ b.size
  pub refs : c.refs ≡ b.refs
  pub traits : c.traits ≡ b.traits
  pub immutable : c.immutable ≡ b.immutable

pub SameHeader-update :
    (b : Buffer) (m : Bytes) (n : ℕ) → SameHeader b (record b { bytes = m; used = n })
SameHeader-update b m n = record { size = refl; refs = refl; traits = refl; immutable = refl }

-- `len` bytes more in `c` than in `b`, from `pos` on; where `b` ends before, there are zeros.
pub record Inserts (b : Buffer) (pos len : ℕ) (c : Buffer) : Type 0 where
  pub valid : IsValid c
  pub used : c.used ≡ larger b.used pos + len
  pub header : SameHeader b c
  pub front : (i : ℕ) → i < pos → at c i ≡ at b i
  pub behind : (i : ℕ) → pos ≤ i → at c (i + len) ≡ at b i

-- The bytes after an insertion in front of the end, and behind it.
abbrev moved : Buffer → (pos len : ℕ) → Bytes
moved b pos len = blit b.bytes (b.used + len - (b.used - pos)) b.bytes pos (b.used - pos)

abbrev extended : Buffer → (pos len : ℕ) → Bytes
extended b pos len =
    let m = blit b.bytes (pos + len - 0) b.bytes pos 0 in
    if ltb b.used pos then clear m b.used (pos - b.used) else m

module _ (b : Buffer) (pos len : ℕ) (v : IsValid b) (w : b.immutable ≡ false)
    (a : is_aligned b.traits b.used pos len ≡ true) (h : larger b.used pos + len ≤ b.size)
    (z : 0 < larger b.used pos + len) where
  insert_inside :
      ltb pos b.used ≡ true
      → buffer_insert b pos len
        ≡ done (record b { bytes = moved b pos len; used = b.used + len }, some pos)
  unfolding buffer_insert
  insert_inside e = ground (arith, v.used_in, v.small)

  insert_behind :
      ltb pos b.used ≡ false
      → buffer_insert b pos len
        ≡ done (record b { bytes = extended b pos len; used = pos + len }, some pos)
  unfolding buffer_insert
  insert_behind e = ground (arith, v.used_in, v.small)

  inside-Inserts :
      ltb pos b.used ≡ true
      → Inserts b pos len (record b { bytes = moved b pos len; used = b.used + len })
  inside-Inserts e = record {
    valid = record { used_in = ground arith; small = v.small };
    used = ground arith;
    header = SameHeader-update b _ _;
    front = λ i k. ground arith;
    behind = λ i k. ground arith;
  }

  behind-Inserts :
      ltb pos b.used ≡ false
      → Inserts b pos len (record b { bytes = extended b pos len; used = pos + len })
  behind-Inserts e = record {
    valid = record { used_in = ground arith; small = v.small };
    used = ground arith;
    header = SameHeader-update b _ _;
    front = λ i k. ground arith;
    behind = λ i k. ground arith;
  }

  -- An insertion into a valid buffer with the space for it, on whole elements, gives the place and
  -- takes up the bytes there: those in front stay, those behind are moved on.
  pub buffer_insert-Inserts :
      (c : Buffer) × (buffer_insert b pos len ≡ done (c, some pos)) × Inserts b pos len c
  buffer_insert-Inserts = elim (Bool-cases (ltb pos b.used)) [
    | inl e ↦ (
      record b { bytes = moved b pos len; used = b.used + len },
      insert_inside e,
      inside-Inserts e,
    )
    | inr e ↦ (
      record b { bytes = extended b pos len; used = pos + len },
      insert_behind e,
      behind-Inserts e,
    )
  ]

-- `len` bytes less in `c` than in `b`, from `off` on.
pub record Cuts (b : Buffer) (off len : ℕ) (c : Buffer) : Type 0 where
  pub valid : IsValid c
  pub used : c.used + len ≡ b.used
  pub front : (i : ℕ) → i < off → at c i ≡ at b i
  pub behind : (i : ℕ) → off ≤ i → at c i ≡ at b (i + len)

module _ (b : Buffer) (off len : ℕ) (v : IsValid b) (a : is_aligned b.traits off len 0 ≡ true)
    (h : off + len ≤ b.used) (z : 0 < len) where
  abbrev less : Buffer
  less = record b {
    bytes =
        if b.used - len - off == 0
        then b.bytes
        else blit b.bytes off b.bytes (off + len) (b.used - len - off);
    used = b.used - len;
  }

  cut_runs : buffer_cut b off len ≡ done (less, ok (b.used - len))
  unfolding buffer_cut
  cut_runs = ground (arith, v.used_in, v.small)

  less-Cuts : Cuts b off len less
  less-Cuts = record {
    valid = record { used_in = ground (arith, v.used_in); small = v.small };
    used = omega arith;
    front = λ i k. ground arith;
    behind = λ i k. ground arith;
  }

  -- A cut of bytes in use, on whole elements, takes out exactly these, and keeps the others in their
  -- order.
  pub buffer_cut-Cuts :
      (c : Buffer) × (buffer_cut b off len ≡ done (c, ok (b.used - len))) × Cuts b off len c
  buffer_cut-Cuts = (less, cut_runs, less-Cuts)

aligned-cut :
    (t : Option Traits) (used pos len : ℕ)
    → is_aligned t used pos len ≡ true
    → is_aligned t pos len 0 ≡ true
aligned-cut none used pos len a = refl
aligned-cut (some t) used pos len a = ground arith

-- Bytes inserted into a valid buffer, on whole elements, and then cut out again leave all bytes as
-- they were; a buffer that ends in front of the place is filled up to there.
pub buffer_cut-buffer_insert :
    (b : Buffer) (pos len : ℕ)
    → IsValid b
    → b.immutable ≡ false
    → is_aligned b.traits b.used pos len ≡ true
    → larger b.used pos + len ≤ b.size
    → 0 < len
    → (c d : Buffer) × (buffer_insert b pos len ≡ done (c, some pos))
      × (buffer_cut c pos len ≡ done (d, ok (larger b.used pos)))
      × (d.used ≡ larger b.used pos)
      × ((i : ℕ) → at d i ≡ at b i)
buffer_cut-buffer_insert b pos len v w a h z =
    let (c, inserts, got) = buffer_insert-Inserts b pos len v w a h (omega arith) in
    let (d, cuts, gone) =
      buffer_cut-Cuts c pos len got.valid
        (rw (got.header.traits) (aligned-cut b.traits b.used pos len a)) (ground (arith, got.used))
        z in
    let left : c.used - len ≡ larger b.used pos = omega (arith, got.used) in
    (
      c,
      d,
      inserts,
      rw (sym left) cuts,
      omega (arith, gone.used, got.used),
      λ i. same b c d i pos len got gone,
    )
  where
    same :
        (b c d : Buffer) (i pos len : ℕ) → Inserts b pos len c → Cuts c pos len d → at d i ≡ at b i
    same b c d i pos len got gone = elim (Bool-cases (ltb i pos)) [
      | inl e ↦ gone.front i (ground arith) ∙ got.front i (ground arith)
      | inr e ↦ gone.behind i (ground arith) ∙ got.behind i (ground arith)
    ]
