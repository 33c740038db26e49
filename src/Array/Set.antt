-- ===== src/Array/Set.antt =====
-- mptcore/array/array_set.c: elements put in an array's own buffer.
use mpt_base.Prelude.{
  ℕ, ◌+◌, ◌-◌, ◌/◌, ◌%◌, ◌^◌, ◌<◌, ◌≤◌, ◌≡◌, refl, sym, ◌∙◌, Bool, true, false, ok, ◌&&◌, ◌||◌,
  ◌==◌, ltb, leb, if◌then◌else◌, Option, none, some, done, arith, Bool-cases, inl, inr,
}
use mpt_base.Prelude.Mem.{Bytes}
use mpt_base.Array.{Traits, Buffer, Memory, is_aligned, larger, fill, clear, buffer_set, set_typed}
use mpt_base.Array.Fill.{byte_of, fill-byte}
use mpt_base.Array.Content.{at}
use mpt_base.Array.Shared.{Store, put_buffer, detach, leaves, is_shared}
use mpt_base.Array.Replace.{array_set, set_old, set_on, element_place}
use mpt_base.Array.Held.{IsHeld, IsFree, refused, detached}
use mpt_base.Array.Detach.{detach-Detaches}
use mpt_base.Array.Owned.{
  Owned, Detached-Owned, kept-Owned, put_buffer-Owned, Changes, unchanged, changed,
}
use mpt_base.Array.Append.{Puts}
use mpt_base.Array.Slice.{sum-aligned}

aligned_end :
    (u : Traits) (used pos len : ℕ)
    → is_aligned (some u) used pos len ≡ true
    → is_aligned (some u) (pos + len) used 0 ≡ true
aligned_end u used pos len a = ground (arith, sum-aligned u.size pos len)

-- Elements set in a buffer `c` of the array's own, with the content of `b`.
module _ (s : Store) (p : ℕ) (b : Buffer) (m : Memory) (u : Traits) (pos : ℕ) (d : Option Bytes)
    (len : ℕ) (t : Store) (p' : ℕ) (c : Buffer) (o : Owned s p b t p' c)
    (same_used : c.used ≡ b.used) (typed : c.traits ≡ some u)
    (same : (i : ℕ) → i < b.used → c.bytes i ≡ b.bytes i) (room : pos + len ≤ c.size)
    (a : is_aligned (some u) b.used pos len ≡ true) where
  abbrev in_front : Bytes
  in_front = if ltb c.used pos then clear c.bytes c.used (pos - c.used) else c.bytes

  abbrev with_data : Buffer
  with_data = record c {
    bytes = fill (record c { bytes = in_front }) pos d len;
    used = larger c.used (pos + len);
  }

  set_gives : buffer_set c (some u) pos d len ≡ (ok (len / u.size), with_data)
  unfolding buffer_set set_typed
  set_gives = rw (typed, buffer_set, set_typed) (ground (arith, o.held.valid.small, same_used))

  in_front-before : (i : ℕ) → i < pos → in_front i ≡ at c i
  in_front-before i k = ground arith

  in_front-after : (i : ℕ) → pos ≤ i → in_front i ≡ c.bytes i
  in_front-after i k = ground arith

  same_at : (i : ℕ) → at c i ≡ at b i
  same_at i = ground (arith, same i, same_used)

  data_at :
      (i : ℕ)
      → at with_data i ≡ (if leb pos i && ltb i (pos + len) then byte_of d (i - pos) else at c i)
  data_at i = ground (
    arith,
    fill-byte (record c { bytes = in_front }) pos d len i,
    in_front-before i,
    in_front-after i,
  )

  with_data-Puts : Puts b pos d len with_data
  with_data-Puts = record {
    used = ground (arith, same_used);
    bytes = λ i. rw (sym (same_at i)) (data_at i);
  }

  set_runs : set_on t p' u pos len d ≡ leaves (put_buffer t p' (some with_data)) p' (some pos)
  set_runs = ground (arith, o.held.is, o.held.not_null, set_gives)

  pub set_on-Changes : Changes s p b m (Puts b pos d len) pos (set_on t p' u pos len d)
  set_on-Changes =
      changed _ p' with_data set_runs
        (put_buffer-Owned s t p p' b c with_data o refl
          (record { used_in = ground (arith, o.held.valid.used_in); small = o.held.valid.small })
          (rw (typed) (ground (arith, same_used, aligned_end u b.used pos len a))))
        with_data-Puts

module _ (s : Store) (p : ℕ) (b : Buffer) (u : Traits) (len : ℕ) (d : Option Bytes) (off pos : ℕ)
    (m : Memory) (held : IsHeld s p b) (free : IsFree s m)
    (place : element_place u.size off b.used ≡ pos) (small : pos + len < 2 ^ 62)
    (typed : b.traits ≡ some u) (a : is_aligned (some u) b.used pos len ≡ true)
    (covers : pos + len < b.used → b.immutable || is_shared b ≡ false) where
  sized : ¬ (u.size ≡ 0) × (len % u.size ≡ 0)
  sized = ground arith

  abbrev copies : Bool
  copies = ltb b.size (pos + len) || (b.immutable || is_shared b)

  reaches : array_set s p (some u) len d off m ≡ set_old s p b u pos len d m
  unfolding array_set
  reaches = ground (arith, held.is, held.not_null, typed, place, sized)

  in_place : copies ≡ false → array_set s p (some u) len d off m ≡ set_on s p u pos len d
  unfolding set_old
  in_place e = reaches ∙ ground arith

  in_place-Owned : copies ≡ false → Owned s p b s p b
  in_place-Owned e = kept-Owned s p b held (ground (arith, held.counted))

  not_detached :
      copies ≡ true
      → detach s p (pos + len) m ≡ done (s, 0)
      → array_set s p (some u) len d off m ≡ leaves s p none
  unfolding set_old
  not_detached e f = reaches ∙ ground arith

  on_detached :
      (t : Store) (p' : ℕ)
      → copies ≡ true
      → detach s p (pos + len) m ≡ done (t, p')
      → ¬ (p' ≡ 0)
      → array_set s p (some u) len d off m ≡ set_on t p' u pos len d
  unfolding set_old
  on_detached t p' e f n =
      let not_null : (p' == 0) ≡ false = ground arith in reaches ∙ rw (e, f, not_null) refl

  -- Whole elements set in an array of their type, at the place that `element_place` gives and with
  -- lengths below 2 ^ 62, replace those there in a buffer of the array's own, with zeros between
  -- the content and the place, while no other buffer changes but the one left, which loses a count
  -- or is freed; or nothing changes, only without memory or for shared content that must not be
  -- copied. If they end in front of the content's end, the buffer must not be shared or immutable.
  pub array_set-Changes :
      Changes s p b m (Puts b pos d len) pos (array_set s p (some u) len d off m)
  array_set-Changes = elim (Bool-cases copies) [
    | inl e ↦
        elim (detach-Detaches s p b (pos + len) m held free small (ground arith)
          (rw (typed) (aligned_end u b.used pos len a))) [
            | refused g f ↦ unchanged g (not_detached e f)
            | detached t p' f k ↦ rw (on_detached t p' e f k.held.not_null) (
                set_on-Changes s p b m u pos d len t p' k.own (Detached-Owned k) k.used
                  (k.traits ∙ typed) k.bytes k.room a)
          ]
    | inr e ↦ rw (in_place e) (
        set_on-Changes s p b m u pos d len s p b (in_place-Owned e) refl typed (λ i h. refl)
          (ground arith) a)
  ]
