-- ===== src/Array/Tests.antt =====
-- Runs of the code of mptcore/array, and its theorems at examples.
mod Laws
use mpt_base.Prelude.{
  ℕ, zero, suc, ◌+◌, ◌-◌, ◌^◌, ◌<◌, ◌≡◌, refl, true, false, Option, none, some, Result, ok, Run,
  done, fault, arith, List, [], ◌∷◌,
}
use mpt_base.Prelude.Mem.{blit}
use mpt_base.Array.{
  Traits, Buffer, Memory, buffer_alloc, buffer_set, set_typed, buffer_insert, buffer_cut,
}
use mpt_base.Array.Content.{at, buffer_cut-buffer_insert}
use mpt_base.Array.Shared.{
  Store, Outcome, put_buffer, detach, array_clone, array_slice, array_insert, array_append, unref,
  addref, refcount_raise, refcount_lower,
}
use mpt_base.Array.Held.{IsHeld, Detaches, refs}
use mpt_base.Array.Detach.{detach-Detaches}
use mpt_base.Array.Owned.{Changes}
use mpt_base.Array.Slice.{Holds, array_slice-Changes}
use mpt_base.Array.Insert.{Opens, array_insert-Changes}
use mpt_base.Array.Append.{Puts, array_append-Changes}
use mpt_base.Array.Replace.{array_set, set_old, array_reserve}
use mpt_base.Array.Set.{array_set-Changes}
use mpt_base.Array.Calls.{append, insert, call, given_none, given_some}
use mpt_base.Array.Machine.{IsSound}
use mpt_base.Array.Reach.{
  Reaches, at_start, after_step, calls, clones, Reaches-IsSound, Reaches-call,
}
use mpt_base.Array.Counts.{IsCounted, holders}
use mpt_base.Array.Clone.{Clones, array_clone-Clones}

-- Buffers with the bytes 1, 2, 3 and on: raw ones, and one for elements of two bytes.
abbrev raw_buffer : (used refs : ℕ) → Buffer
raw_buffer used refs = record {
  bytes = λ i. i + 1;
  traits = none;
  size = 64;
  used = used;
  refs = refs;
  immutable = false;
  no_copy = false;
}

abbrev short_traits : Traits
short_traits = record { id = 7; size = 2 }

abbrev short_buffer : Buffer
short_buffer = record (raw_buffer 4 2) { traits = some short_traits }

abbrev memory : Memory
memory = record { address = 9; junk = λ i. 77 }

abbrev empty : Store
empty q = none

abbrev one_store : Buffer → Store
one_store b = put_buffer empty 5 (some b)

-- The first bytes of the buffer at an address.
abbrev first : (n : ℕ) → Buffer → List ℕ
first n b = from 0 n
  where
    from : (i n : ℕ) → List ℕ
    from i zero = []
    from i (suc n) = at b i ∷ from (i + 1) n

abbrev bytes_at : Store → ℕ → List ℕ
bytes_at s p = elim (s p) [ none ↦ [] | some b ↦ first b.used b ]

-- What a call leaves: the array, its result, the bytes of the array's buffer and of the buffer at 5,
-- and their counts.
abbrev shows : Run (Outcome (Option ℕ)) → Option (ℕ × Option ℕ × List ℕ × List ℕ × ℕ × ℕ)
shows fault = none
shows (done o) = some (
  o.array,
  o.result,
  bytes_at o.store o.array,
  bytes_at o.store 5,
  refs o.store o.array,
  refs o.store 5,
)

abbrev result_of : Run (Outcome ℕ) → Option ℕ
result_of fault = none
result_of (done o) = some o.result

abbrev counts_of : Run (Outcome (Option ℕ)) → Option (ℕ × Option ℕ × ℕ)
counts_of fault = none
counts_of (done o) = some (o.array, o.result, refs o.store o.array)

raw-IsHeld : IsHeld (one_store (raw_buffer 3 2)) 5 (raw_buffer 3 2)
raw-IsHeld = record {
  not_null = ground arith;
  is = refl;
  valid = record { used_in = omega arith; small = omega arith };
  counted = omega arith;
  whole = refl;
}

short-IsHeld : IsHeld (one_store short_buffer) 5 short_buffer
short-IsHeld = record {
  not_null = ground arith;
  is = refl;
  valid = record { used_in = omega arith; small = omega arith };
  counted = omega arith;
  whole = refl;
}

insert_shared :
    shows (array_insert (one_store (raw_buffer 3 2)) 5 1 2 memory)
    ≡ some (9, some 1, 1 ∷ 2 ∷ 3 ∷ 2 ∷ 3 ∷ [], 1 ∷ 2 ∷ 3 ∷ [], 1, 1)
unfolding array_insert detach refcount_lower buffer_set buffer_insert
insert_shared = refl

slice_shared :
    shows (array_slice (one_store (raw_buffer 3 2)) 5 2 3 memory)
    ≡ some (9, some 2, 1 ∷ 2 ∷ 3 ∷ 0 ∷ 0 ∷ [], 1 ∷ 2 ∷ 3 ∷ [], 1, 1)
unfolding array_slice detach refcount_lower buffer_set buffer_insert
slice_shared = refl

set_shared :
    shows (
      array_set (one_store short_buffer) 5 (some short_traits) 2 (some λ i. 50) (2 ^ 64 - 1) memory)
    ≡ some (9, some 2, 1 ∷ 2 ∷ 50 ∷ 50 ∷ [], 1 ∷ 2 ∷ 3 ∷ 4 ∷ [], 1, 1)
unfolding array_set set_old detach refcount_lower buffer_set set_typed
set_shared = refl

set_behind :
    shows (array_set (one_store short_buffer) 5 (some short_traits) 2 (some λ i. 50) 3 memory)
    ≡ some (9, some 6, 1 ∷ 2 ∷ 3 ∷ 4 ∷ 0 ∷ 0 ∷ 50 ∷ 50 ∷ [], 1 ∷ 2 ∷ 3 ∷ 4 ∷ [], 1, 1)
unfolding array_set set_old detach refcount_lower buffer_set set_typed
set_behind = refl

-- Bytes appended to a buffer of two arrays that has the space for them.
append_to_both :
    shows (array_append (one_store (raw_buffer 3 2)) 5 (some λ i. 50) 1 memory)
    ≡ some (5, some 3, 1 ∷ 2 ∷ 3 ∷ 50 ∷ [], 1 ∷ 2 ∷ 3 ∷ 50 ∷ [], 2, 2)
unfolding array_append
append_to_both = refl

-- A clone of an array with no buffer, over an array with one.
clone_of_none : array_clone (one_store (raw_buffer 3 1)) 5 (some 0) ≡ fault
unfolding array_clone
clone_of_none = refl

-- A buffer of their own, for one of two arrays with some content.
reserve_shared : result_of (array_reserve (one_store (raw_buffer 3 2)) 5 10 none memory) ≡ some 0
unfolding array_reserve buffer_set
reserve_shared = refl

reserve_shared_empty :
    result_of (array_reserve (one_store (raw_buffer 0 2)) 5 10 none memory) ≡ some 9
unfolding array_reserve unref refcount_lower
reserve_shared_empty = refl

-- An element set at the start of a large buffer of two arrays: both still have the buffer, which
-- counts one.
abbrev large_buffer : Buffer
large_buffer = record {
  bytes = λ i. i;
  traits = some short_traits;
  size = 320;
  used = 200;
  refs = 2;
  immutable = false;
  no_copy = false;
}

set_first :
    counts_of (array_set (one_store large_buffer) 5 (some short_traits) 2 none 0 memory)
    ≡ some (5, none, 1)
unfolding array_set set_old detach refcount_lower buffer_set set_typed
set_first = refl

-- The same for an immutable buffer of one array: more is copied than the new one has space for.
set_first_immutable :
    array_set
      (one_store (record large_buffer { refs = 1; immutable = true }))
      5
      (some short_traits)
      2
      none
      0
      memory
    ≡ fault
unfolding array_set set_old detach refcount_lower
set_first_immutable = refl

-- A cut of everything from behind the end on.
cut_behind : buffer_cut (raw_buffer 3 1) 5 0 ≡ done (record (raw_buffer 3 1) { used = 5 }, ok 5)
unfolding buffer_cut
cut_behind = refl
