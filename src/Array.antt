-- ===== src/Array.antt =====
-- mptcore/array: one buffer, with buffer_set.c, buffer_insert.c, buffer_cut.c and buffer_data.c, and
-- the allocation of buffer_alloc.c. The types of content are those with no constructor and no
-- destructor: `init` and `fini` of the type traits are null.
pub mod Content
pub mod Fill
pub mod Shared
pub mod Held
pub mod Detach
pub mod Owned
pub mod Slice
pub mod Insert
pub mod Replace
pub mod Append
pub mod Set
pub mod Counts
pub mod Clone
pub mod New
pub mod Calls
pub mod Machine
pub mod Reach
mod Tests
use mpt_base.Prelude.{
  ℕ, ◌+◌, ◌-◌, ◌*◌, ◌/◌, ◌%◌, ◌^◌, Bool, true, false, not, ◌&&◌, ◌||◌, ◌==◌, ltb, leb,
  if◌then◌else◌, Option, none, some, Result, ok, err, bad_argument, bad_type, missing_buffer,
  missing_data, Run, done, fault, ◌>>=◌,
}
use mpt_base.Prelude.Mem.{Bytes, blit, memmove, sub_size}

-- `MPT_STRUCT(type_traits)`: its address, and the size of an element.
pub record Traits : Type 0 where
  pub id : ℕ
  pub size : ℕ

-- `MPT_STRUCT(bufferData)` and its `MPT_STRUCT(buffer)`: the data, its size and the part in use, the
-- reference count, and the flags `BufferImmutable` and `BufferNoCopy`.
pub record Buffer : Type 0 where
  pub bytes : Bytes
  pub traits : Option Traits
  pub size : ℕ
  pub used : ℕ
  pub refs : ℕ
  pub immutable : Bool
  pub no_copy : Bool

-- What `malloc` gives: the address, null for none, and the bytes there.
pub record Memory : Type 0 where
  pub address : ℕ
  pub junk : Bytes

-- `n` bytes zero from `pos` on.
abbrev pub clear : Bytes → (pos n : ℕ) → Bytes
clear m pos n a = if leb pos a && ltb a (pos + n) then 0 else m a

-- The size of the data in a new buffer for `len` bytes: the block, with its header of 64 bytes, is
-- a multiple of 128 bytes.
abbrev pub alloc_size : (len : ℕ) → ℕ
alloc_size len =
    let total = (len + 64) % 2 ^ 64 in sub_size ((sub_size total 1 / 128 + 1) * 128 % 2 ^ 64) 64

-- `_mpt_buffer_alloc`, if there is memory.
abbrev pub buffer_alloc : (len : ℕ) (no_copy : Bool) → Bytes → Buffer
buffer_alloc len no_copy junk = record {
  bytes = junk;
  traits = none;
  size = alloc_size len;
  used = 0;
  refs = 1;
  immutable = false;
  no_copy = no_copy;
}

abbrev pub same_traits : Option Traits → Option Traits → Bool
same_traits none none = true
same_traits (some t) (some u) = t.id == u.id
same_traits _ _ = false

-- The data or zeros put at a place in the buffer, and what is in use then.
abbrev pub fill : Buffer → (pos : ℕ) → Option Bytes → (len : ℕ) → Bytes
fill b pos none len = clear b.bytes pos len
fill b pos (some d) len = blit b.bytes pos d 0 len

abbrev pub larger : ℕ → ℕ → ℕ
larger a b = if ltb a b then b else a

-- Data of a type, on elements of a size: what is in front of it is filled with zeros from the end of
-- the last whole element on.
unfoldable pub set_typed : Buffer → (elem pos : ℕ) → Option Bytes → (len : ℕ) → Result ℕ × Buffer
set_typed b elem pos d len =
    let used = b.used - b.used % elem in
    let front = record b {
      bytes = if ltb used pos then clear b.bytes used (pos - used) else b.bytes;
    } in
    (ok (len / elem), record b { bytes = fill front pos d len; used = larger used (pos + len) })

-- `mpt_buffer_set`
unfoldable pub buffer_set :
    Buffer → Option Traits → (pos : ℕ) → Option Bytes → (len : ℕ) → Result ℕ × Buffer
buffer_set b t pos d len =
    if ltb (2 ^ 64 - 1 - pos) len
    then (err bad_argument, b)
    else if ltb b.size (pos + len)
    then (err missing_buffer, b)
    else elim b.traits [
      | none ↦ elim t [
        | some _ ↦ (err bad_argument, b)
        | none ↦ (ok 0, record b { bytes = fill b pos d len; used = larger b.used (pos + len) })
      ]
      | some own ↦ elim t [
        | none ↦ (err bad_type, b)
        | some u ↦
            if u.size == 0
            then (err bad_argument, b)
            else if not (pos % u.size == 0) || not (len % u.size == 0)
            then (err bad_argument, b)
            else if not (own.id == u.id)
            then (err bad_type, b)
            else set_typed b u.size pos d len
      ]
    ]

-- Whether three sizes are multiples of the type's.
abbrev pub is_aligned : Option Traits → (a b c : ℕ) → Bool
is_aligned none a b c = true
is_aligned (some t) a b c =
    not (t.size == 0) && (a % t.size == 0 && (b % t.size == 0 && (c % t.size == 0)))

-- The space made: the data behind `pos` moved to the new end, and zeros in front of `pos`.
abbrev opened : Buffer → (pos total keep : ℕ) → Run (Buffer × Option ℕ)
opened b pos total keep =
    if ltb total keep
    then fault
    else (memmove b.size b.bytes (total - keep) pos keep >>= λ m. done (
      record b {
        bytes = if ltb b.used pos then clear m b.used (pos - b.used) else m;
        used = total;
      },
      some pos,
    ))

-- `mpt_buffer_insert`; the result is the place of the inserted data.
unfoldable pub buffer_insert : Buffer → (pos len : ℕ) → Run (Buffer × Option ℕ)
buffer_insert b pos len =
    let total = if ltb pos b.used then (b.used + len) % 2 ^ 64 else (pos + len) % 2 ^ 64 in
    if total == 0
    then done (b, some 0)
    else if ltb b.size total
    then done (b, none)
    else if b.immutable
    then done (b, none)
    else if is_aligned b.traits b.used pos len
    then opened b pos total (if ltb pos b.used then b.used - pos else 0)
    else done (b, none)

-- The bytes behind a cut moved to its place.
abbrev closed_up : Buffer → (off len keep : ℕ) → Run (Buffer × Result ℕ)
closed_up b off len keep =
    if keep - off == 0
    then done (record b { used = keep }, ok keep)
    else (memmove b.size b.bytes off (off + len) (keep - off) >>= λ m.
        done (record b { bytes = m; used = keep }, ok keep))

-- `mpt_buffer_cut`; no length stands for all from the offset on.
unfoldable pub buffer_cut : Buffer → (off len : ℕ) → Run (Buffer × Result ℕ)
buffer_cut b off len =
    let keep = if len == 0 then off else b.used - len in
    if ltb b.used len
    then done (b, err bad_argument)
    else if ltb keep off
    then done (b, err missing_data)
    else if is_aligned b.traits off len 0
    then closed_up b off len keep
    else done (b, err bad_argument)

-- `mpt_buffer_data`: the place of element `pos` of `len` bytes.
unfoldable pub buffer_data : Buffer → (pos len : ℕ) → Option ℕ
buffer_data b pos len =
    if not (len == 0) && leb (b.used / len) pos then none else some (pos * len % 2 ^ 64)
