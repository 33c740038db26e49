-- ===== src/Array/Replace.antt =====
-- mptcore/array: array_set.c, elements of a type put in an array, and array_reserve.c, a buffer of
-- an array's own for data of a type.
use mpt_base.Prelude.{
  ℕ, ◌+◌, ◌-◌, ◌*◌, ◌%◌, ◌^◌, Bool, false, not, ◌&&◌, ◌||◌, ◌==◌, ltb, leb, if◌then◌else◌, Option,
  none, some, ok, err, Run, done, fault, ◌>>=◌,
}
use mpt_base.Prelude.Mem.{Bytes}
use mpt_base.Array.{Traits, Buffer, Memory, buffer_alloc, buffer_set, same_traits}
use mpt_base.Array.Shared.{
  Store, Outcome, put_buffer, load, unref, detach, leaves, aligned_length, is_shared,
}

-- Data set in the buffer at `p`.
abbrev pub set_on :
    Store → (p : ℕ) → Traits → (pos len : ℕ) → Option Bytes → Run (Outcome (Option ℕ))
set_on s p u pos len d = load s p >>= λ b.
    let (result, c) = buffer_set b (some u) pos d len in
    elim result [
      | err _ ↦ leaves (put_buffer s p (some c)) p none
      | ok _ ↦ leaves (put_buffer s p (some c)) p (some pos)
    ]

-- The place of element `off`, a `long` as its 64-bit word; a negative one counts from the end of
-- the `used` bytes.
abbrev pub element_place : (size off used : ℕ) → ℕ
element_place size off used = (off * size + (if leb (2 ^ 63) off then used else 0)) % 2 ^ 64

-- A new buffer of the type in an empty array; the code does not test that there is memory.
abbrev pub set_new :
    Store → Traits → (pos len : ℕ) → Option Bytes → Memory → Run (Outcome (Option ℕ))
set_new s u pos len d m =
    if m.address == 0
    then fault
    else set_on
        (put_buffer s m.address
          (some (record (buffer_alloc (pos + len) false m.junk) { traits = some u })))
        m.address u pos len d

-- A place in the array's buffer, which is detached if it is too small or not the array's own.
unfoldable pub set_old :
    Store
    → (p : ℕ) → Buffer
    → Traits
    → (pos len : ℕ) → Option Bytes
    → Memory
    → Run (Outcome (Option ℕ))
set_old s p b u pos len d m =
    if ltb b.size (pos + len) || (b.immutable || is_shared b)
    then (detach s p (pos + len) m >>= λ r.
        if r.1 == 0 then leaves r.0 p none else set_on r.0 r.1 u pos len d)
    else set_on s p u pos len d

abbrev pub bad_place : (pos len : ℕ) → Bool
bad_place pos len = leb (2 ^ 63) pos || ltb (2 ^ 64 - 1 - pos) len

-- Data of a type with whole elements.
abbrev set_elements :
    Store
    → (array : ℕ) → Traits
    → (len : ℕ) → Option Bytes
    → (off : ℕ) → Memory
    → Run (Outcome (Option ℕ))
set_elements s p u len d off m =
    if p == 0
    then (let pos = off * u.size % 2 ^ 64 in
        if bad_place pos len then leaves s p none else set_new s u pos len d m)
    else (load s p >>= λ b.
        if not (same_traits (some u) b.traits)
        then leaves s p none
        else (let pos = element_place u.size off b.used in
            if bad_place pos len then leaves s p none else set_old s p b u pos len d m))

-- `mpt_array_set`; the result is the place of the data.
unfoldable pub array_set :
    Store
    → (array : ℕ) → Option Traits
    → (len : ℕ) → Option Bytes
    → (off : ℕ) → Memory
    → Run (Outcome (Option ℕ))
array_set s p none len d off m = leaves s p none
array_set s p (some u) len d off m =
    if u.size == 0 || not (len % u.size == 0)
    then leaves s p none
    else set_elements s p u len d off m

-- The whole elements in use; a type with no size is a division by zero.
abbrev whole_used : Buffer → Run ℕ
whole_used b = elim b.traits [
  | none ↦ done b.used
  | some t ↦ if t.size == 0 then fault else done (b.used - b.used % t.size)
]

-- The content copied to a buffer in place of the one at `p`, with the arguments of the call as the
-- code has them: at the end of the content, and no bytes.
abbrev reserve_copy :
    Store
    → (p : ℕ) → Buffer
    → (next : Buffer) → (len : ℕ) → Option Traits
    → Memory
    → Run (Outcome ℕ)
reserve_copy s p b next len t m = whole_used b >>= λ n.
    let replace : Buffer → Run (Outcome ℕ) =
      λ c. unref (put_buffer s m.address (some c)) p >>= λ s'. leaves s' m.address m.address in
    if same_traits b.traits t && not b.no_copy
    then (let used = if ltb len n then len else n in
        if used == 0
        then replace next
        else (let (result, c) = buffer_set next t used (some b.bytes) 0 in
            elim result [ ok k ↦ if k == 0 then leaves s p 0 else replace c | err _ ↦ replace c ]))
    else replace next

-- A new buffer for an array that has none, or a shared or immutable one.
abbrev reserve_new :
    Store → (p : ℕ) → Option Buffer → (len : ℕ) → Option Traits → Memory → Run (Outcome ℕ)
reserve_new s p o len t m =
    let next = record (buffer_alloc len false m.junk) { traits = t } in
    if m.address == 0 then leaves s p 0 else elim o [
      | none ↦ leaves (put_buffer s m.address (some next)) m.address m.address
      | some b ↦ reserve_copy s p b next len t m
    ]

-- The buffer of the array alone, with no content of another type.
abbrev reserve_own : Store → (p : ℕ) → Buffer → (len : ℕ) → Option Traits → Memory → Run (Outcome ℕ)
reserve_own s p b len t m =
    let kept = if same_traits b.traits t then b else record b { used = 0 } in
    detach (put_buffer s p (some kept)) p len m >>= λ r.
    if r.1 == 0
    then leaves r.0 p 0
    else (load r.0 r.1 >>= λ c.
        leaves (put_buffer r.0 r.1 (some (record c { traits = t }))) r.1 r.1)

-- `mpt_array_reserve`; the result is the buffer.
unfoldable pub array_reserve :
    Store → (array : ℕ) (len : ℕ) → Option Traits → Memory → Run (Outcome ℕ)
array_reserve s p len t m = elim (aligned_length t len) [
  | none ↦ leaves s p 0
  | some n ↦
      if p == 0
      then reserve_new s p none n t m
      else (load s p >>= λ b.
          if is_shared b || b.immutable
          then reserve_new s p (some b) n t m
          else reserve_own s p b n t m)
]
