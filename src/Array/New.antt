-- ===== src/Array/New.antt =====
-- mptcore/array: the operations on an array with no buffer, which get one of their own.
use mpt_base.Prelude.{
  ℕ, ◌+◌, ◌-◌, ◌*◌, ◌%◌, ◌^◌, ◌<◌, ◌≤◌, ◌≡◌, refl, ap, ◌∙◌, true, false, not, ◌||◌, ◌==◌, ltb,
  if◌then◌else◌, Option, none, some, arith,
}
use native.Mathlib.Nat.{mul-mod_left}
use native.Mathlib.Decide.{ℕ_discrete}
use mpt_base.Prelude.Mem.{Bytes, sub_size}
use mpt_base.Array.{Traits, Buffer, Memory, buffer_alloc, is_aligned, clear}
use mpt_base.Array.Content.{IsValid, at}
use mpt_base.Array.Shared.{
  Store, put_buffer, leaves, new_raw, append_at, array_slice, array_insert, array_append,
}
use mpt_base.Array.Replace.{array_set, set_new, set_on, bad_place}
use mpt_base.Array.Held.{
  IsFree, Moves, count, refs-put_buffer, put_buffer_other, put_buffer_here, alloc_size-le,
}
use mpt_base.Array.Owned.{Owned, Changes, unchanged, changed}
use mpt_base.Array.Append.{Puts, append_at-Changes}
use mpt_base.Array.Set.{set_on-Changes}

-- An array with no buffer in the place of one with an empty buffer that nobody has.
abbrev pub nothing : Option Traits → Buffer
nothing t = record {
  bytes = λ i. 0;
  traits = t;
  size = 0;
  used = 0;
  refs = 0;
  immutable = false;
  no_copy = false;
}

-- Zeros, for all of the bytes in use up to `zeros`.
pub record Starts (n zeros : ℕ) (c : Buffer) : Type 0 where
  pub used : c.used ≡ n
  pub bytes : (i : ℕ) → i < zeros → at c i ≡ 0

module _ (s : Store) (m : Memory) (free : IsFree s m) (n : ¬ (m.address ≡ 0)) where
  fresh-Moves : (c : Buffer) → c.refs ≡ 1 → Moves s 0 (put_buffer s m.address (some c)) m.address
  fresh-Moves c e q w =
      ground (arith, refs-put_buffer s m.address q (some c), ap count free.free, e)

  fresh-Owned :
      (o : Option Traits) (c : Buffer)
      → c.refs ≡ 1
      → IsValid c
      → is_aligned c.traits c.used 0 0 ≡ true
      → Owned s 0 (nothing o) (put_buffer s m.address (some c)) m.address c
  fresh-Owned o c e v a = record {
    held = record {
      not_null = n;
      is = put_buffer_here s m.address (some c);
      valid = v;
      counted = omega (arith, e);
      whole = a;
    };
    alone = e;
    moves = fresh-Moves c e;
    others = λ q u w. put_buffer_other s m.address q (some c) w;
    shared = λ h. (let no : ⊥ = omega arith in elim no [ ]);
    gone = λ h w. (let no : ⊥ = omega arith in elim no [ ]);
  }

module _ (s : Store) (m : Memory) (free : IsFree s m) (len zeros : ℕ) (small : len < 2 ^ 62)
    (h : zeros ≤ len) where
  abbrev first : Buffer
  first = record (buffer_alloc len false m.junk) { used = len; bytes = clear m.junk 0 zeros }

  first-Starts : Starts len zeros first
  first-Starts = record { used = refl; bytes = λ i k. ground arith }

  new_raw-none : (place : ℕ) → m.address ≡ 0 → new_raw s len zeros m place ≡ leaves s 0 none
  new_raw-none place e = ground arith

  new_raw-some :
      (place : ℕ)
      → ¬ (m.address ≡ 0)
      → new_raw s len zeros m place
        ≡ leaves (put_buffer s m.address (some first)) m.address (some place)
  new_raw-some place e = ground (arith, alloc_size-le len small)

  new_raw-Changes :
      (place : ℕ)
      → Changes s 0 (nothing none) m (Starts len zeros) place (new_raw s len zeros m place)
  new_raw-Changes place = elim (ℕ_discrete m.address 0) [
    | yes e ↦ unchanged (ground arith) (new_raw-none place e)
    | no n ↦
        changed _ m.address first (new_raw-some place n)
          (fresh-Owned s m free n none first refl
            (record { used_in = (alloc_size-le len small).0; small = (alloc_size-le len small).1 })
            refl)
          first-Starts
  ]

module _ (s : Store) (m : Memory) (free : IsFree s m) where
  slice_runs :
      (off len : ℕ)
      → off + len < 2 ^ 62
      → array_slice s 0 off len m ≡ new_raw s (off + len) (off + len) m off
  unfolding array_slice
  slice_runs off len h =
      let fits : ltb (2 ^ 64 - 1 - off) len ≡ false = ground arith in rw (fits) refl

  pub array_slice_new :
      (off len : ℕ)
      → off + len < 2 ^ 62
      → Changes s 0
          (nothing none)
          m
          (Starts (off + len) (off + len))
          off
          (array_slice s 0 off len m)
  array_slice_new off len h =
      rw (slice_runs off len h)
        (new_raw-Changes s m free (off + len) (off + len) h (omega arith) off)

  insert_runs :
      (pos len : ℕ)
      → pos + len < 2 ^ 62
      → array_insert s 0 pos len m ≡ new_raw s (len + pos) pos m pos
  unfolding array_insert
  insert_runs pos len h =
      let fits : ltb (sub_size (2 ^ 63 - 1) pos) len ≡ false = ground arith in
      let whole : (len + pos) % 2 ^ 64 ≡ len + pos = omega arith in rw (fits, whole) refl

  pub array_insert_new :
      (pos len : ℕ)
      → pos + len < 2 ^ 62
      → Changes s 0 (nothing none) m (Starts (len + pos) pos) pos (array_insert s 0 pos len m)
  array_insert_new pos len h =
      rw (insert_runs pos len h)
        (new_raw-Changes s m free (len + pos) pos (omega arith) (omega arith) pos)

  append_none :
      (d : Option Bytes) (len : ℕ) → m.address ≡ 0 → array_append s 0 d len m ≡ leaves s 0 none
  unfolding array_append
  append_none d len e = ground arith

  append_runs :
      (d : Option Bytes) (len : ℕ)
      → ¬ (m.address ≡ 0)
      → array_append s 0 d len m
        ≡ append_at
            (put_buffer s m.address (some (buffer_alloc len false m.junk)))
            m.address
            0
            d
            len
  unfolding array_append
  append_runs d len n =
      let some_memory : (m.address == 0) ≡ false = ground arith in rw (some_memory) refl

  pub array_append_new :
      (d : Option Bytes) (len : ℕ)
      → len < 2 ^ 62
      → Changes s 0 (nothing none) m (Puts (nothing none) 0 d len) 0 (array_append s 0 d len m)
  array_append_new d len h = elim (ℕ_discrete m.address 0) [
    | yes e ↦ unchanged (ground arith) (append_none d len e)
    | no n ↦ rw (append_runs d len n) (
        append_at-Changes s 0 (nothing none) m d len
          (put_buffer s m.address (some (buffer_alloc len false m.junk))) m.address
          (buffer_alloc len false m.junk)
          (fresh-Owned s m free n none (buffer_alloc len false m.junk) refl
            (record { used_in = omega arith; small = (alloc_size-le len h).1 }) refl)
          refl refl (λ i k. ground arith) (omega (arith, alloc_size-le len h)))
  ]

  abbrev typed_new : Traits → (total : ℕ) → Buffer
  typed_new u total = record (buffer_alloc total false m.junk) { traits = some u }

  set_runs :
      ¬ (m.address ≡ 0)
      → (u : Traits) (len : ℕ) (d : Option Bytes) (off : ℕ) → off * u.size + len < 2 ^ 62
      → is_aligned (some u) len 0 0 ≡ true
      → array_set s 0 (some u) len d off m
        ≡ set_on
            (put_buffer s m.address (some (typed_new u (off * u.size + len))))
            m.address
            u
            (off * u.size)
            len
            d
  unfolding array_set
  set_runs n u len d off h a =
      let sized : u.size == 0 || not (len % u.size == 0) ≡ false = ground arith in
      let small : off * u.size % 2 ^ 64 ≡ off * u.size = omega arith in
      let fits : bad_place (off * u.size) len ≡ false = ground arith in
      let some_memory : (m.address == 0) ≡ false = ground arith in
      rw (sized) (
        ap (λ k. if bad_place k len then leaves s 0 none else set_new s u k len d m) small
        ∙ rw (fits, some_memory) refl)

  aligned_new :
      (u : Traits) (len off : ℕ)
      → is_aligned (some u) len 0 0 ≡ true
      → is_aligned (some u) 0 (off * u.size) len ≡ true
  aligned_new u len off a = ground (arith, mul-mod_left off u.size)

  pub array_set_new :
      ¬ (m.address ≡ 0)
      → (u : Traits) (len : ℕ) (d : Option Bytes) (off : ℕ) → off * u.size + len < 2 ^ 62
      → is_aligned (some u) len 0 0 ≡ true
      → Changes s 0
          (nothing (some u))
          m
          (Puts (nothing (some u)) (off * u.size) d len)
          (off * u.size)
          (array_set s 0 (some u) len d off m)
  array_set_new n u len d off h a = rw (set_runs n u len d off h a) (
      set_on-Changes s 0 (nothing (some u)) m u (off * u.size) d len
        (put_buffer s m.address (some (typed_new u (off * u.size + len)))) m.address
        (typed_new u (off * u.size + len))
        (fresh-Owned s m free n (some u) (typed_new u (off * u.size + len)) refl
          (record { used_in = omega arith; small = (alloc_size-le (off * u.size + len) h).1 })
          (ground arith))
        refl refl (λ i k. ground arith) (alloc_size-le (off * u.size + len) h).0
        (aligned_new u len off a))
