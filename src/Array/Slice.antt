-- ===== src/Array/Slice.antt =====
-- mptcore/array/array_slice.c: a slice of an array is the array's own, with all of its content.
use mpt_base.Prelude.{
  ℕ, ◌+◌, ◌-◌, ◌%◌, ◌^◌, ◌<◌, ◌≤◌, ◌≡◌, refl, ap, ◌∙◌, true, false, ◌||◌, ltb, Option, none, some,
  done, arith, Bool-cases, inl, inr,
}
use native.Mathlib.Nat.{add-mod, zero-mod, dvd-sub, mod-eq-zero_of_dvd, dvd_of_mod-eq-zero}
use mpt_base.Array.{Traits, Buffer, Memory, buffer_insert, is_aligned, larger, clear}
use mpt_base.Array.Content.{at, Inserts, buffer_insert-Inserts}
use mpt_base.Array.Shared.{Store, put_buffer, detach, grow_to, leaves, array_slice, is_shared}
use mpt_base.Array.Held.{IsHeld, IsFree, refused, detached}
use mpt_base.Array.Detach.{detach-Detaches}
use mpt_base.Array.Owned.{
  Owned, Detached-Owned, kept-Owned, put_buffer-Owned, Changes, unchanged, changed,
}

-- All of the content, with zeros up to the slice's end.
pub record Holds (b : Buffer) (total : ℕ) (c : Buffer) : Type 0 where
  pub used : c.used ≡ larger b.used total
  pub bytes : (i : ℕ) → at c i ≡ at b i

abbrev pub sum-aligned : (m a b : ℕ) → a % m ≡ 0 → b % m ≡ 0 → (a + b) % m ≡ 0
sum-aligned m a b e f =
    add-mod a b m ∙ (ap (λ k. (k + b % m) % m) e ∙ (ap (λ k. (0 + k) % m) f ∙ zero-mod m))

difference-aligned : (m a b : ℕ) → a % m ≡ 0 → b % m ≡ 0 → (a - b) % m ≡ 0
difference-aligned m a b e f =
    mod-eq-zero_of_dvd m (dvd-sub m (dvd_of_mod-eq-zero m e) (dvd_of_mod-eq-zero m f))

aligned_total :
    (o : Option Traits) (off len used : ℕ)
    → is_aligned o off len used ≡ true
    → is_aligned o (off + len) used 0 ≡ true
aligned_total none off len used a = refl
aligned_total (some u) off len used a = ground (arith, sum-aligned u.size off len)

aligned_larger :
    (o : Option Traits) (total used : ℕ)
    → is_aligned o total used 0 ≡ true
    → is_aligned o (larger total used) used 0 ≡ true
aligned_larger none total used a = refl
aligned_larger (some u) total used a = ground arith

aligned_used :
    (o : Option Traits) (total used : ℕ)
    → is_aligned o total used 0 ≡ true
    → is_aligned o (larger used total) 0 0 ≡ true
aligned_used none total used a = refl
aligned_used (some u) total used a = ground arith

aligned_grow :
    (o : Option Traits) (total used : ℕ)
    → is_aligned o total used 0 ≡ true
    → is_aligned o used used (total - used) ≡ true
aligned_grow none total used a = refl
aligned_grow (some u) total used a = ground (arith, difference-aligned u.size total used)

-- The end of the content moved behind the slice, in a buffer with the space for it.
module _ (s : Store) (p : ℕ) (b : Buffer) (m : Memory) (off total : ℕ) (t : Store) (p' : ℕ)
    (c : Buffer) (o : Owned s p b t p' c) (same_used : c.used ≡ b.used)
    (same_traits : c.traits ≡ b.traits) (same : (i : ℕ) → i < b.used → c.bytes i ≡ b.bytes i)
    (writable : c.immutable ≡ false) (room : total ≤ c.size)
    (a : is_aligned b.traits total b.used 0 ≡ true) where
  stays : ltb b.used total ≡ false → grow_to t p' b.used off total ≡ leaves t p' (some off)
  stays e = ground (arith, o.held.is, o.held.not_null)

  stays-Holds : ltb b.used total ≡ false → Holds b total c
  stays-Holds e = record {
    used = ground (arith, same_used);
    bytes = λ i. ground (arith, same i, same_used);
  }

  inserted :
      ltb b.used total ≡ true
      → (d : Buffer) × (buffer_insert c b.used (total - b.used) ≡ done (d, some b.used))
        × Inserts c b.used (total - b.used) d
  inserted e =
      buffer_insert-Inserts c b.used (total - b.used) o.held.valid writable
        (rw (same_traits, same_used) (aligned_grow b.traits total b.used a))
        (ground (arith, same_used)) (ground (arith, same_used))

  abbrev zeros : Buffer → Buffer
  zeros d = record d { bytes = clear d.bytes b.used (total - b.used) }

  grows :
      (d : Buffer)
      → ltb b.used total ≡ true
      → buffer_insert c b.used (total - b.used) ≡ done (d, some b.used)
      → grow_to t p' b.used off total ≡ leaves (put_buffer t p' (some (zeros d))) p' (some off)
  grows d e f = ground (arith, o.held.is, o.held.not_null)

  zeros_whole :
      (d : Buffer)
      → Inserts c b.used (total - b.used) d
      → ltb b.used total ≡ true
      → is_aligned (zeros d).traits (zeros d).used 0 0 ≡ true
  zeros_whole d g e =
      let end : d.used ≡ larger b.used total = ground (arith, g.used, same_used) in
      rw (g.header.traits, same_traits, end) (aligned_used b.traits total b.used a)

  grows-Holds :
      (d : Buffer)
      → ltb b.used total ≡ true
      → Inserts c b.used (total - b.used) d
      → Holds b total (zeros d)
  grows-Holds d e g = record {
    used = ground (arith, g.used, same_used);
    bytes = λ i. ground (arith, g.used, g.front i, g.header.size, same i, same_used);
  }

  grow_to-Changes : Changes s p b m (Holds b total) off (grow_to t p' b.used off total)
  grow_to-Changes = elim (Bool-cases (ltb b.used total)) [
    | inl e ↦
        (let (d, f, g) = inserted e in
          changed _ p' (zeros d) (grows d e f)
            (put_buffer-Owned s t p p' b c (zeros d) o g.header.refs
              (record { used_in = g.valid.used_in; small = g.valid.small }) (zeros_whole d g e))
            (grows-Holds d e g))
    | inr e ↦ changed t p' c (stays e) o (stays-Holds e)
  ]

module _ (s : Store) (p : ℕ) (b : Buffer) (off len : ℕ) (m : Memory) (held : IsHeld s p b)
    (free : IsFree s m) (small : off + len < 2 ^ 62) (used_small : b.used < 2 ^ 62)
    (whole : is_aligned b.traits off len b.used ≡ true) where
  total_whole : is_aligned b.traits (off + len) b.used 0 ≡ true
  total_whole = aligned_total b.traits off len b.used whole

  kept :
      ltb b.size (off + len) || (b.immutable || is_shared b) ≡ false
      → array_slice s p off len m ≡ grow_to s p b.used off (off + len)
  unfolding array_slice
  kept e = ground (arith, held.is, held.not_null)

  in_place-Owned :
      ltb b.size (off + len) || (b.immutable || is_shared b) ≡ false → Owned s p b s p b
  in_place-Owned e = kept-Owned s p b held (ground (arith, held.counted))

  not_detached :
      ltb b.size (off + len) || (b.immutable || is_shared b) ≡ true
      → detach s p (larger (off + len) b.used) m ≡ done (s, 0)
      → array_slice s p off len m ≡ leaves s p none
  unfolding array_slice
  not_detached e f = ground (arith, held.is, held.not_null)

  on_detached :
      (t : Store) (p' : ℕ)
      → ltb b.size (off + len) || (b.immutable || is_shared b) ≡ true
      → detach s p (larger (off + len) b.used) m ≡ done (t, p')
      → ¬ (p' ≡ 0)
      → array_slice s p off len m ≡ grow_to t p' b.used off (off + len)
  unfolding array_slice
  on_detached t p' e f n = ground (arith, held.is, held.not_null)

  -- A slice of an array with a buffer, on whole elements and with lengths below 2 ^ 62, is in a
  -- buffer of the array's own with all of the content and zeros up to the slice's end, while no
  -- other buffer changes but the one left, which loses a count or is freed; or it is refused with
  -- nothing changed, only without memory or for shared content that must not be copied.
  pub array_slice-Changes : Changes s p b m (Holds b (off + len)) off (array_slice s p off len m)
  array_slice-Changes = elim (Bool-cases (ltb b.size (off + len) || (b.immutable || is_shared b))) [
    | inl e ↦
        elim (detach-Detaches s p b (larger (off + len) b.used) m held free (ground arith)
          (ground arith) (aligned_larger b.traits (off + len) b.used total_whole)) [
            | refused g f ↦ unchanged g (not_detached e f)
            | detached t p' f d ↦ rw (on_detached t p' e f d.held.not_null) (
                grow_to-Changes s p b m off (off + len) t p' d.own (Detached-Owned d) d.used
                  d.traits d.bytes d.writable (ground (arith, d.room)) total_whole)
          ]
    | inr e ↦ rw (kept e) (
        grow_to-Changes s p b m off (off + len) s p b (in_place-Owned e) refl refl (λ i h. refl)
          (ground arith) (ground arith) total_whole)
  ]
