-- ===== src/Array/Shared.antt =====
-- mptcore/array: arrays that share buffers. The references of buffer_alloc.c and misc/refcount.c,
-- and array_clone.c, array_reduce.c, array_slice.c, array_append.c and array_insert.c. An array is
-- the address of its buffer, 0 for none.
use mpt_base.Prelude.{
  ℕ, ◌+◌, ◌-◌, ◌%◌, ◌^◌, Bool, false, not, ◌&&◌, ◌||◌, ◌==◌, ltb, leb, if◌then◌else◌, Option, none,
  some, Result, ok, err, bad_operation, bad_type, Run, done, fault, ◌>>=◌,
}
use mpt_base.Prelude.Mem.{Bytes, blit, sub_size}
use mpt_base.Array.{
  Traits, Buffer, Memory, buffer_alloc, buffer_set, buffer_insert, same_traits, clear, is_aligned,
  fill,
}

-- The buffers at their addresses.
abbrev pub Store : Type 0
Store = ℕ → Option Buffer

abbrev pub put_buffer : Store → ℕ → Option Buffer → Store
put_buffer s p b q = if q == p then b else s q

-- A buffer read: a null pointer or one that is free is a fault.
abbrev pub load : Store → ℕ → Run Buffer
load s p = if p == 0 then fault else elim (s p) [ none ↦ fault | some b ↦ done b ]

-- `mpt_refcount_lower` and `mpt_refcount_raise`, with their results.
unfoldable pub refcount_lower : ℕ → ℕ × ℕ
refcount_lower n = if n == 0 then (0, 2 ^ 64 - 1) else (n - 1, n - 1)

unfoldable pub refcount_raise : ℕ → ℕ × ℕ
refcount_raise n =
    if n == 0 then (0, 0) else if (n + 1) % 2 ^ 64 == 0 then (n, 0) else (n + 1, n + 1)

-- `_mpt_buffer_alloc_unref`
unfoldable pub unref : Store → ℕ → Run Store
unfolding refcount_lower
unref s p = load s p >>= λ b.
    let r = refcount_lower b.refs in
    done (put_buffer s p (if r.1 == 0 then none else some (record b { refs = r.0 })))

-- `_mpt_buffer_alloc_ref`
unfoldable pub addref : Store → ℕ → Run (Store × ℕ)
unfolding refcount_raise
addref s p = load s p >>= λ b.
    let r = refcount_raise b.refs in done (put_buffer s p (some (record b { refs = r.0 })), r.1)

-- `BufferShared` of `_mpt_buffer_alloc_flags`
abbrev pub is_shared : Buffer → Bool
is_shared b = ltb 1 b.refs

-- The length for whole elements of a type; none for a type with no size.
abbrev pub aligned_length : Option Traits → ℕ → Option ℕ
aligned_length none len = some len
aligned_length (some t) len =
    if t.size == 0
    then none
    else some (if len % t.size == 0 then len else (len + (t.size - len % t.size)) % 2 ^ 64)

-- The copy for a shared buffer, which has lost this reference.
abbrev detach_copy : Store → (p : ℕ) → Buffer → Buffer → Memory → (ℕ × ℕ) → Run (Store × ℕ)
detach_copy s p b next m r =
    let s' = put_buffer s p (some (record b { refs = r.0 })) in
    let (result, c) = buffer_set next b.traits 0 (some b.bytes) b.used in
    elim result [ err e ↦ done (s', 0) | ok n ↦ done (put_buffer s' m.address (some c), m.address) ]

-- The data moved out of a buffer with no other reference.
abbrev detach_move : Store → (p : ℕ) → Buffer → Buffer → Memory → (len : ℕ) → Run (Store × ℕ)
detach_move s p b next m len =
    let n : ℕ = elim b.traits [ none ↦ if ltb len b.used then len else b.used | some t ↦ b.used ] in
    if ltb next.size n
    then fault
    else done (
      put_buffer (put_buffer s p none) m.address
          (some (record next { bytes = blit next.bytes 0 b.bytes 0 n; used = n })),
      m.address,
    )

-- A new buffer in place of the old one.
abbrev detach_new : Store → (p : ℕ) → Buffer → (len : ℕ) → Memory → Run (Store × ℕ)
detach_new s p b len m =
    if m.address == 0
    then done (s, 0)
    else (let next = record (buffer_alloc len b.no_copy m.junk) { traits = b.traits } in
        let r = refcount_lower b.refs in
        if r.1 == 0 then detach_move s p b next m len else detach_copy s p b next m r)

abbrev detach_for : Store → (p : ℕ) → Buffer → Memory → (len : ℕ) → Run (Store × ℕ)
detach_for s p b m len =
    if ltb b.refs 2 && (leb len b.size && not b.immutable)
    then done (s, p)
    else if leb 2 b.refs && (b.no_copy && not (b.used == 0))
    then done (s, 0)
    else detach_new s p b len m

-- `_mpt_buffer_alloc_detach`; the result is the buffer to use, null for none.
unfoldable pub detach : Store → (p : ℕ) → (len : ℕ) → Memory → Run (Store × ℕ)
unfolding refcount_lower
detach s p len m = load s p >>= λ b. elim (aligned_length b.traits len) [
  | none ↦ done (s, 0)
  | some n ↦ detach_for s p b m n
]

-- What an operation on an array leaves: the buffers, the array, and the result of the call.
pub record Outcome {ℓ} (A : Type ℓ) : Type ℓ where
  pub store : Store
  pub array : ℕ
  pub result : A

abbrev pub leaves {ℓ} : {A : Type ℓ} → Store → ℕ → A → Run (Outcome A)
leaves s p a = done (record { store = s; array = p; result = a })

-- `mpt_array_clone`
unfoldable pub array_clone : Store → (array : ℕ) (from : Option ℕ) → Run (Outcome (Result ℕ))
array_clone s p none =
    if p == 0 then leaves s 0 (ok 0) else (unref s p >>= λ s'. leaves s' 0 (ok 2))
array_clone s p (some from) =
    if from == p
    then leaves s p (ok 0)
    else (load s from >>= λ set.
        if p == 0
        then (addref s from >>= λ r.
            if r.1 == 0 then leaves s p (err bad_operation) else leaves r.0 from (ok 1))
        else (load s p >>= λ b.
            if not (same_traits set.traits b.traits)
            then leaves s p (err bad_type)
            else (addref s from >>= λ r.
                if r.1 == 0
                then leaves s p (err bad_operation)
                else (unref r.0 p >>= λ s'. leaves s' from (ok 3)))))

-- `mpt_array_reduce`
unfoldable pub array_reduce : Store → (array : ℕ) → Memory → Run (Outcome ℕ)
array_reduce s p m =
    if p == 0
    then leaves s p 0
    else (load s p >>= λ b. detach s p b.used m >>= λ r.
        if r.1 == 0 then leaves r.0 p b.size else (load r.0 r.1 >>= λ c. leaves r.0 r.1 c.size))

-- A new raw buffer in an empty array, with `n` bytes in use, and zeros for `z` bytes at its start.
abbrev pub new_raw : Store → (n z : ℕ) → Memory → (place : ℕ) → Run (Outcome (Option ℕ))
new_raw s n z m place =
    let b = buffer_alloc n false m.junk in
    if m.address == 0
    then leaves s 0 none
    else if ltb b.size z
    then fault
    else leaves (put_buffer s m.address (some (record b { used = n; bytes = clear b.bytes 0 z })))
        m.address (some place)

-- `mpt_buffer_insert` on the buffer at `p`.
abbrev pub insert_in : Store → (p pos len : ℕ) → Run (Outcome (Option ℕ))
insert_in s p pos len =
    load s p >>= λ b. buffer_insert b pos len >>= λ r. leaves (put_buffer s p (some r.0)) p r.1

-- `mpt_array_insert`
unfoldable pub array_insert : Store → (array : ℕ) (pos len : ℕ) → Memory → Run (Outcome (Option ℕ))
array_insert s p pos len m =
    if ltb (sub_size (2 ^ 63 - 1) pos) len
    then leaves s p none
    else if p == 0
    then new_raw s ((len + pos) % 2 ^ 64) pos m pos
    else (load s p >>= λ b.
        let used = if ltb b.used pos then pos else b.used in
        if leb ((used + len) % 2 ^ 64) b.size && not (is_shared b)
        then insert_in s p pos len
        else (detach s p ((used + len) % 2 ^ 64) m >>= λ r.
            if r.1 == 0 then leaves r.0 p none else insert_in r.0 r.1 pos len))

-- The part of a slice behind the data, inserted and filled with zeros.
abbrev pub grow_to : Store → (p used off total : ℕ) → Run (Outcome (Option ℕ))
grow_to s p used off total = load s p >>= λ b.
    if ltb used total
    then (buffer_insert b used (total - used) >>= λ r. elim r.1 [
      | none ↦ leaves (put_buffer s p (some r.0)) p none
      | some place ↦
          leaves
            (put_buffer s p (some (record r.0 { bytes = clear r.0.bytes place (total - used) }))) p
            (some off)
    ])
    else leaves s p (some off)

-- `mpt_array_slice`; the result is the place of the slice.
unfoldable pub array_slice : Store → (array : ℕ) (off len : ℕ) → Memory → Run (Outcome (Option ℕ))
array_slice s p off len m =
    let total = off + len in
    if ltb (2 ^ 64 - 1 - off) len
    then leaves s p none
    else if p == 0
    then new_raw s total total m off
    else (load s p >>= λ b.
        if not (is_aligned b.traits off len b.used)
        then leaves s p none
        else if ltb b.size total || (b.immutable || is_shared b)
        then (detach s p (if ltb total b.used then b.used else total) m >>= λ r.
            if r.1 == 0 then leaves r.0 p none else grow_to r.0 r.1 b.used off total)
        else grow_to s p b.used off total)

-- The bytes appended to a raw buffer.
abbrev pub append_at : Store → (p used : ℕ) → Option Bytes → (len : ℕ) → Run (Outcome (Option ℕ))
append_at s p used d len = load s p >>= λ b.
    if len == 0
    then leaves s p (some used)
    else if ltb b.size (used + len)
    then fault
    else leaves (put_buffer s p (some (record b { used = used + len; bytes = fill b used d len })))
        p (some used)

-- `mpt_array_append`
unfoldable pub array_append :
    Store → (array : ℕ) → Option Bytes → (len : ℕ) → Memory → Run (Outcome (Option ℕ))
array_append s p d len m =
    if p == 0
    then (if m.address == 0
        then leaves s 0 none
        else append_at (put_buffer s m.address (some (buffer_alloc len false m.junk))) m.address 0 d
            len)
    else (load s p >>= λ b. elim b.traits [
      | some t ↦ leaves s p none
      | none ↦
          if ltb (sub_size b.size b.used) len
          then (if ltb (2 ^ 64 - 1 - b.used) len
              then leaves s p none
              else (detach s p (b.used + len) m >>= λ r.
                  if r.1 == 0 then leaves r.0 p none else append_at r.0 r.1 b.used d len))
          else append_at s p b.used d len
    ])
