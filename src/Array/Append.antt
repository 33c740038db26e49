-- ===== src/Array/Append.antt =====
-- mptcore/array/array_append.c: bytes appended to an array's own buffer.
use mpt_base.Prelude.{
  ℕ, ◌+◌, ◌-◌, ◌^◌, ◌<◌, ◌≤◌, ◌≡◌, refl, ◌∙◌, true, ◌&&◌, ◌==◌, ltb, leb, if◌then◌else◌, Option,
  none, some, done, arith, Bool-cases, inl, inr,
}
use mpt_base.Prelude.Mem.{Bytes}
use mpt_base.Array.{Traits, Buffer, Memory, is_aligned, larger, fill}
use mpt_base.Array.Fill.{byte_of, fill-byte}
use mpt_base.Array.Content.{at}
use mpt_base.Array.Shared.{Store, put_buffer, detach, append_at, leaves, array_append}
use mpt_base.Array.Held.{IsHeld, IsFree, refused, detached}
use mpt_base.Array.Detach.{detach-Detaches}
use mpt_base.Array.Owned.{
  Owned, Detached-Owned, kept-Owned, put_buffer-Owned, Changes, unchanged, changed,
}

-- The content with the bytes of `d`, or zeros, in the place of those from `pos` on.
pub record Puts (b : Buffer) (pos : ℕ) (d : Option Bytes) (len : ℕ) (c : Buffer) : Type 0 where
  pub used : c.used ≡ larger b.used (pos + len)
  pub bytes :
      (i : ℕ) → at c i ≡ (if leb pos i && ltb i (pos + len) then byte_of d (i - pos) else at b i)

aligned_none : (o : Option Traits) (n k : ℕ) → o ≡ none → is_aligned o n k 0 ≡ true
aligned_none o n k e = rw (e) refl

-- Bytes appended to a buffer `c` of the array's own, with the content of `b`.
module _ (s : Store) (p : ℕ) (b : Buffer) (m : Memory) (d : Option Bytes) (len : ℕ) (t : Store)
    (p' : ℕ) (c : Buffer) (o : Owned s p b t p' c) (same_used : c.used ≡ b.used)
    (raw : c.traits ≡ none) (same : (i : ℕ) → i < b.used → c.bytes i ≡ b.bytes i)
    (room : b.used + len ≤ c.size) where
  abbrev longer : Buffer
  longer = record c { used = b.used + len; bytes = fill c b.used d len }

  none_runs : len ≡ 0 → append_at t p' b.used d len ≡ leaves t p' (some b.used)
  none_runs e = ground (arith, o.held.is, o.held.not_null)

  append_runs :
      ¬ (len ≡ 0)
      → append_at t p' b.used d len ≡ leaves (put_buffer t p' (some longer)) p' (some b.used)
  append_runs e = ground (arith, o.held.is, o.held.not_null)

  none-Puts : len ≡ 0 → Puts b b.used d len c
  none-Puts e = record {
    used = ground (arith, same_used);
    bytes = λ i. ground (arith, same i, same_used);
  }

  longer-Puts : Puts b b.used d len longer
  longer-Puts = record {
    used = ground arith;
    bytes = λ i. ground (arith, fill-byte c b.used d len i, same i, same_used);
  }

  pub append_at-Changes : Changes s p b m (Puts b b.used d len) b.used (append_at t p' b.used d len)
  append_at-Changes = elim (Bool-cases (len == 0)) [
    | inl e ↦ changed t p' c (none_runs (ground arith)) o (none-Puts (ground arith))
    | inr e ↦
        changed _ p' longer (append_runs (ground arith))
          (put_buffer-Owned s t p p' b c longer o refl
            (record { used_in = room; small = o.held.valid.small }) (aligned_none _ _ _ raw))
          longer-Puts
  ]

module _ (s : Store) (p : ℕ) (b : Buffer) (d : Option Bytes) (len : ℕ) (m : Memory)
    (held : IsHeld s p b) (free : IsFree s m) (small : b.used + len < 2 ^ 62)
    (raw : b.traits ≡ none) (own : b.used + len ≤ b.size → b.refs ≡ 1) where
  in_place : b.used + len ≤ b.size → array_append s p d len m ≡ append_at s p b.used d len
  unfolding array_append
  in_place e = ground (arith, held.is, held.not_null, raw, held.valid.used_in, held.valid.small)

  in_place-Owned : b.used + len ≤ b.size → Owned s p b s p b
  in_place-Owned e = kept-Owned s p b held (own e)

  not_detached :
      b.size < b.used + len
      → detach s p (b.used + len) m ≡ done (s, 0)
      → array_append s p d len m ≡ leaves s p none
  unfolding array_append
  not_detached e f =
      ground (arith, held.is, held.not_null, raw, held.valid.used_in, held.valid.small)

  on_detached :
      (t : Store) (p' : ℕ)
      → b.size < b.used + len
      → detach s p (b.used + len) m ≡ done (t, p')
      → ¬ (p' ≡ 0)
      → array_append s p d len m ≡ append_at t p' b.used d len
  unfolding array_append
  on_detached t p' e f n =
      ground (arith, held.is, held.not_null, raw, held.valid.used_in, held.valid.small)

  -- Bytes appended to an array with a raw buffer, with lengths below 2 ^ 62, that has it alone or
  -- finds no space in it, stand behind its content in a buffer of the array's own, while no other
  -- buffer changes but the one left, which loses a count or is freed; or nothing changes, only
  -- without memory or for shared content that must not be copied.
  pub array_append-Changes : Changes s p b m (Puts b b.used d len) b.used (array_append s p d len m)
  array_append-Changes = elim (Bool-cases (leb (b.used + len) b.size)) [
    | inl e ↦ rw (in_place (ground arith)) (
        append_at-Changes s p b m d len s p b (in_place-Owned (ground arith)) refl raw (λ i h. refl)
          (ground arith))
    | inr e ↦
        elim (detach-Detaches s p b (b.used + len) m held free small (omega arith)
          (aligned_none _ _ _ raw)) [
            | refused g f ↦ unchanged g (not_detached (ground arith) f)
            | detached t p' f k ↦ rw (on_detached t p' (ground arith) f k.held.not_null) (
                append_at-Changes s p b m d len t p' k.own (Detached-Owned k) k.used
                  (k.traits ∙ raw) k.bytes k.room)
          ]
  ]
