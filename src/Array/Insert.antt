-- ===== src/Array/Insert.antt =====
-- mptcore/array/array_insert.c: space made in an array's own buffer.
use mpt_base.Prelude.{
  ℕ, ◌+◌, ◌^◌, ◌<◌, ◌≤◌, ◌≡◌, refl, ◌∙◌, Bool, true, false, not, ◌&&◌, leb, Option, none, some,
  done, arith, Bool-cases, inl, inr,
}
use mpt_base.Array.{Traits, Buffer, Memory, buffer_insert, is_aligned, larger}
use mpt_base.Array.Content.{at, Inserts, buffer_insert-Inserts}
use mpt_base.Array.Shared.{Store, put_buffer, detach, insert_in, leaves, array_insert, is_shared}
use mpt_base.Array.Held.{IsHeld, IsFree, refused, detached}
use mpt_base.Array.Detach.{detach-Detaches}
use mpt_base.Array.Owned.{
  Owned, Detached-Owned, kept-Owned, put_buffer-Owned, Changes, unchanged, changed,
}
use mpt_base.Array.Slice.{sum-aligned}

-- The content with `len` bytes more from `pos` on; where it ends before, there are zeros.
pub record Opens (b : Buffer) (pos len : ℕ) (c : Buffer) : Type 0 where
  pub used : c.used ≡ larger b.used pos + len
  pub front : (i : ℕ) → i < pos → at c i ≡ at b i
  pub behind : (i : ℕ) → pos ≤ i → at c (i + len) ≡ at b i

aligned_end :
    (o : Option Traits) (used pos len : ℕ)
    → is_aligned o used pos len ≡ true
    → is_aligned o (larger used pos + len) used 0 ≡ true
aligned_end none used pos len a = refl
aligned_end (some u) used pos len a =
    ground (arith, sum-aligned u.size used len, sum-aligned u.size pos len)

aligned_opened :
    (o : Option Traits) (end used : ℕ)
    → is_aligned o end used 0 ≡ true
    → is_aligned o end 0 0 ≡ true
aligned_opened none end used a = refl
aligned_opened (some u) end used a = ground arith

-- An insertion into a buffer `c` of the array's own, with the content of `b`.
module _ (s : Store) (p : ℕ) (b : Buffer) (m : Memory) (pos len : ℕ) (t : Store) (p' : ℕ)
    (c : Buffer) (o : Owned s p b t p' c) (same_used : c.used ≡ b.used)
    (same_traits : c.traits ≡ b.traits) (same : (i : ℕ) → i < b.used → c.bytes i ≡ b.bytes i)
    (writable : c.immutable ≡ false) (room : larger b.used pos + len ≤ c.size) (some_len : 0 < len)
    (a : is_aligned b.traits b.used pos len ≡ true) where
  same_at : (i : ℕ) → at c i ≡ at b i
  same_at i = ground (arith, same i, same_used)

  inserted : (d : Buffer) × (buffer_insert c pos len ≡ done (d, some pos)) × Inserts c pos len d
  inserted =
      buffer_insert-Inserts c pos len o.held.valid writable (rw (same_traits, same_used) a)
        (rw (same_used) room) (omega arith)

  inserted_whole : (d : Buffer) → Inserts c pos len d → is_aligned d.traits d.used 0 0 ≡ true
  inserted_whole d g =
      let end : d.used ≡ larger b.used pos + len = ground (arith, g.used, same_used) in
      rw (g.header.traits, same_traits, end)
        (aligned_opened b.traits (larger b.used pos + len) b.used
          (aligned_end b.traits b.used pos len a))

  insert_runs :
      (d : Buffer)
      → buffer_insert c pos len ≡ done (d, some pos)
      → insert_in t p' pos len ≡ leaves (put_buffer t p' (some d)) p' (some pos)
  insert_runs d f = ground (arith, o.held.is, o.held.not_null)

  insert_in-Changes : Changes s p b m (Opens b pos len) pos (insert_in t p' pos len)
  insert_in-Changes =
      let (d, f, g) = inserted in
      changed _ p' d (insert_runs d f)
        (put_buffer-Owned s t p p' b c d o g.header.refs g.valid (inserted_whole d g))
        (record {
          used = ground (arith, g.used, same_used);
          front = λ i k. g.front i k ∙ same_at i;
          behind = λ i k. g.behind i k ∙ same_at i;
        })

module _ (s : Store) (p : ℕ) (b : Buffer) (pos len : ℕ) (m : Memory) (held : IsHeld s p b)
    (free : IsFree s m) (small : larger b.used pos + len < 2 ^ 62) (some_len : 0 < len)
    (w : b.immutable ≡ false) (a : is_aligned b.traits b.used pos len ≡ true) where
  enough : Bool
  enough = leb (larger b.used pos + len) b.size && not (is_shared b)

  in_place : enough ≡ true → array_insert s p pos len m ≡ insert_in s p pos len
  unfolding array_insert enough
  in_place e = ground (arith, held.is, held.not_null)

  in_place-Owned : enough ≡ true → Owned s p b s p b
  unfolding enough
  in_place-Owned e = kept-Owned s p b held (ground (arith, held.counted))

  not_detached :
      enough ≡ false
      → detach s p (larger b.used pos + len) m ≡ done (s, 0)
      → array_insert s p pos len m ≡ leaves s p none
  unfolding array_insert enough
  not_detached e f = ground (arith, held.is, held.not_null)

  on_detached :
      (t : Store) (p' : ℕ)
      → enough ≡ false
      → detach s p (larger b.used pos + len) m ≡ done (t, p')
      → ¬ (p' ≡ 0)
      → array_insert s p pos len m ≡ insert_in t p' pos len
  unfolding array_insert enough
  on_detached t p' e f n = ground (arith, held.is, held.not_null)

  -- An insertion of some bytes into an array with a buffer that is not immutable, on whole
  -- elements and with lengths below 2 ^ 62, makes the space in a buffer of the array's own with
  -- the content in front and behind, while no other buffer changes but the one left, which loses a
  -- count or is freed; or it is refused with nothing changed, only without memory or for shared
  -- content that must not be copied.
  pub array_insert-Changes : Changes s p b m (Opens b pos len) pos (array_insert s p pos len m)
  unfolding enough
  array_insert-Changes = elim (Bool-cases enough) [
    | inl e ↦ rw (in_place e) (
        insert_in-Changes s p b m pos len s p b (in_place-Owned e) refl refl (λ i h. refl) w
          (ground arith) some_len a)
    | inr e ↦
        elim (detach-Detaches s p b (larger b.used pos + len) m held free small (ground arith)
          (aligned_end b.traits b.used pos len a)) [
            | refused g f ↦ unchanged g (not_detached e f)
            | detached t p' f d ↦ rw (on_detached t p' e f d.held.not_null) (
                insert_in-Changes s p b m pos len t p' d.own (Detached-Owned d) d.used d.traits
                  d.bytes d.writable d.room some_len a)
          ]
  ]
