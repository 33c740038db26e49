-- ===== src/Array/Tests/Laws.antt =====
-- The theorems of mptcore/array at examples.
use mpt_base.Prelude.{
  ℕ, ◌+◌, ◌-◌, ◌^◌, ◌<◌, ◌≡◌, refl, false, Option, none, some, Result, ok, done, arith, [], ◌∷◌,
}
use mpt_base.Prelude.Mem.{blit}
use mpt_base.Array.{Buffer, Memory, buffer_alloc, buffer_insert, buffer_cut}
use mpt_base.Array.Content.{at, buffer_cut-buffer_insert}
use mpt_base.Array.Shared.{
  Store, Outcome, put_buffer, detach, array_clone, array_slice, array_insert, array_append, addref,
  refcount_raise,
}
use mpt_base.Array.Held.{Detaches}
use mpt_base.Array.Detach.{detach-Detaches}
use mpt_base.Array.Owned.{Changes}
use mpt_base.Array.Slice.{Holds, array_slice-Changes}
use mpt_base.Array.Insert.{Opens, array_insert-Changes}
use mpt_base.Array.Append.{Puts, array_append-Changes}
use mpt_base.Array.Replace.{array_set}
use mpt_base.Array.Set.{array_set-Changes}
use mpt_base.Array.Calls.{append, insert, call, given_none, given_some}
use mpt_base.Array.Machine.{IsSound}
use mpt_base.Array.Reach.{
  Reaches, at_start, after_step, calls, clones, Reaches-IsSound, Reaches-call,
}
use mpt_base.Array.Counts.{IsCounted, holders}
use mpt_base.Array.Clone.{Clones, array_clone-Clones}
use mpt_base.Array.Tests.{
  raw_buffer, short_traits, short_buffer, memory, empty, one_store, raw-IsHeld, short-IsHeld,
}

buffer_cut-buffer_insert_example :
    (c d : Buffer) × (buffer_insert (raw_buffer 3 1) 1 2 ≡ done (c, some 1))
    × (buffer_cut c 1 2 ≡ done (d, ok 3))
    × (d.used ≡ 3)
    × ((i : ℕ) → at d i ≡ at (raw_buffer 3 1) i)
buffer_cut-buffer_insert_example =
    buffer_cut-buffer_insert (raw_buffer 3 1) 1 2
      (record { used_in = omega arith; small = omega arith }) refl refl (omega arith) (omega arith)

detach-Detaches_example :
    Detaches
      (one_store (raw_buffer 3 2))
      5
      (raw_buffer 3 2)
      10
      memory
      (detach (one_store (raw_buffer 3 2)) 5 10 memory)
detach-Detaches_example =
    detach-Detaches (one_store (raw_buffer 3 2)) 5 (raw_buffer 3 2) 10 memory raw-IsHeld
      (record { free = refl }) (omega arith) (omega arith) refl

array_slice-Changes_example :
    Changes
      (one_store short_buffer)
      5
      short_buffer
      memory
      (Holds short_buffer 8)
      6
      (array_slice (one_store short_buffer) 5 6 2 memory)
array_slice-Changes_example =
    array_slice-Changes (one_store short_buffer) 5 short_buffer 6 2 memory short-IsHeld
      (record { free = refl }) (omega arith) (omega arith) refl

array_insert-Changes_example :
    Changes
      (one_store short_buffer)
      5
      short_buffer
      memory
      (Opens short_buffer 2 4)
      2
      (array_insert (one_store short_buffer) 5 2 4 memory)
array_insert-Changes_example =
    array_insert-Changes (one_store short_buffer) 5 short_buffer 2 4 memory short-IsHeld
      (record { free = refl }) (omega arith) (omega arith) refl refl

array_append-Changes_example :
    Changes
      (one_store (raw_buffer 3 2))
      5
      (raw_buffer 3 2)
      memory
      (Puts (raw_buffer 3 2) 3 none 70)
      3
      (array_append (one_store (raw_buffer 3 2)) 5 none 70 memory)
array_append-Changes_example =
    array_append-Changes (one_store (raw_buffer 3 2)) 5 (raw_buffer 3 2) none 70 memory raw-IsHeld
      (record { free = refl }) (omega arith) refl (λ h. omega arith)

array_set-Changes_example :
    Changes
      (one_store short_buffer)
      5
      short_buffer
      memory
      (Puts short_buffer 2 none 2)
      2
      (array_set (one_store short_buffer) 5 (some short_traits) 2 none (2 ^ 64 - 1) memory)
array_set-Changes_example =
    array_set-Changes (one_store short_buffer) 5 short_buffer short_traits 2 none (2 ^ 64 - 1) 2
      memory short-IsHeld (record { free = refl }) refl (omega arith) refl refl (λ h. ground arith)

none_held : (q : ℕ) → ¬ (q ≡ 0) → holders (0 ∷ 0 ∷ []) q ≡ 0
unfolding holders
none_held q n = ground arith

-- Two buffers, and three arrays of which two have the first one.
abbrev two_stores : Store
two_stores = put_buffer (one_store (raw_buffer 3 2)) 6 (some (raw_buffer 2 1))

two_stores-IsCounted : IsCounted two_stores (5 ∷ 5 ∷ 6 ∷ [])
unfolding holders
two_stores-IsCounted q n = ground arith

array_clone-Clones_example :
    Clones two_stores (5 ∷ 5 ∷ []) 6 [] (some 5) (array_clone two_stores 6 (some 5))
array_clone-Clones_example =
    array_clone-Clones two_stores (5 ∷ 5 ∷ []) 6 [] two_stores-IsCounted (some 5)
      (λ from e. ground (arith, e))

-- Two arrays: bytes appended to the first one, and the second one a clone of it.
abbrev three : Buffer
three = record (buffer_alloc 3 false memory.junk) {
  used = 3;
  bytes = blit memory.junk 0 (λ i. i + 1) 0 3;
}

abbrev appended : Outcome (Option ℕ)
appended = record {
  store = put_buffer (put_buffer empty 9 (some (buffer_alloc 3 false memory.junk))) 9 (some three);
  array = 9;
  result = some 0;
}

appended_by : call (append (some λ i. i + 1) 3) empty 0 memory ≡ done appended
unfolding array_append
appended_by = refl

abbrev both : Outcome (Result ℕ)
both = record {
  store = put_buffer appended.store 9 (some (record three { refs = 2 }));
  array = 9;
  result = ok 1;
}

both_by : array_clone appended.store 0 (some 9) ≡ done both
unfolding array_clone addref refcount_raise
both_by = refl

both_reached : Reaches both.store (9 ∷ 9 ∷ [])
both_reached =
    after_step one_reached
      (clones appended.store (9 ∷ []) 0 [] (some 9) both (λ from e. ground (arith, e)) both_by)
  where
    one_reached : Reaches appended.store (9 ∷ 0 ∷ [])
    one_reached = after_step (at_start (0 ∷ 0 ∷ []) (λ q n. none_held q n)) (
        calls empty [] 0 (0 ∷ []) (append (some λ i. i + 1) 3) memory appended
          (record { free = refl }) (given_none refl (omega arith)) appended_by)

Reaches-IsSound_example : IsSound both.store (9 ∷ 9 ∷ [])
Reaches-IsSound_example = Reaches-IsSound both_reached

other_memory : Memory
other_memory = record { address = 4; junk = λ i. 0 }

Reaches-call_example :
    (¬ (◌≡◌ {A = ℕ} 9 0) → (b : Buffer) × (both.store 9 ≡ some b) × (0 < b.refs))
    × ((o : Outcome (Option ℕ)) × (call (insert 1 2) both.store 9 other_memory ≡ done o)
        × Reaches o.store (o.array ∷ 9 ∷ []))
unfolding other_memory
Reaches-call_example =
    Reaches-call [] 9 (9 ∷ []) both_reached (insert 1 2) other_memory (record { free = refl })
      (given_some (record three { refs = 2 }) (ground arith) refl
        (omega arith, omega arith, refl, refl))
