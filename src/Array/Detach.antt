-- ===== src/Array/Detach.antt =====
-- mptcore/array/buffer_alloc.c: a buffer to be changed is the only reference's own, or a copy.
use mpt_base.Prelude.{
  ℕ, ◌+◌, ◌-◌, ◌^◌, ◌<◌, ◌≤◌, ◌≡◌, refl, sym, ap, ◌∙◌, true, false, ok, not, ◌&&◌, ◌==◌, ltb, leb,
  Option, none, some, done, arith, Bool-cases, Option-cases, inl, inr,
}
use native.Mathlib.Decide.{ℕ_discrete}
use mpt_base.Prelude.Mem.{blit}
use mpt_base.Array.{Traits, Buffer, Memory, buffer_alloc, buffer_set, is_aligned}
use mpt_base.Array.Fill.{Sets, buffer_set-Sets}
use mpt_base.Array.Shared.{Store, put_buffer, detach, refcount_lower, aligned_length}
use mpt_base.Array.Held.{
  count, refs, Moves, IsFree, IsHeld, Detached, Detaches, alloc_size-le, put_buffer_other,
  put_buffer_here, refs-put_buffer, refused, detached,
}

whole_same :
    (o o' : Option Traits) (u u' : ℕ)
    → o' ≡ o
    → u' ≡ u
    → is_aligned o u 0 0 ≡ true
    → is_aligned o' u' 0 0 ≡ true
whole_same o o' u u' e f a = rw (e, f) a

zero_plus : (i : ℕ) → 0 + (i - 0) ≡ i
zero_plus i = omega arith

length_kept :
    (o : Option Traits) (len used : ℕ)
    → is_aligned o len used 0 ≡ true
    → aligned_length o len ≡ some len
length_kept none len used a = refl
length_kept (some t) len used a = ground arith

aligned-copy :
    (o : Option Traits) (len used : ℕ)
    → is_aligned o len used 0 ≡ true
    → is_aligned o 0 0 used ≡ true
aligned-copy none len used a = refl
aligned-copy (some t) len used a = ground arith

module _ (s : Store) (p : ℕ) (b : Buffer) (len : ℕ) (m : Memory) (held : IsHeld s p b)
    (free : IsFree s m) (small : len < 2 ^ 62) (room : b.used ≤ len)
    (whole : is_aligned b.traits len b.used 0 ≡ true) where
  next : Buffer
  next = record (buffer_alloc len b.no_copy m.junk) { traits = b.traits }

  not_same : ¬ (m.address ≡ p)
  not_same e = ground (arith, held.is, free.free, ap s e)

  reuse :
      ltb b.refs 2 && (leb len b.size && not b.immutable) ≡ true → detach s p len m ≡ done (s, p)
  unfolding detach
  reuse e = ground (arith, held.is, held.not_null, length_kept b.traits len b.used whole)

  blocked :
      ltb b.refs 2 && (leb len b.size && not b.immutable) ≡ false
      → leb 2 b.refs && (b.no_copy && not (b.used == 0)) ≡ true
      → detach s p len m ≡ done (s, 0)
  unfolding detach
  blocked e f = ground (arith, held.is, held.not_null, length_kept b.traits len b.used whole)

  no_memory :
      ltb b.refs 2 && (leb len b.size && not b.immutable) ≡ false
      → leb 2 b.refs && (b.no_copy && not (b.used == 0)) ≡ false
      → m.address ≡ 0
      → detach s p len m ≡ done (s, 0)
  unfolding detach
  no_memory e f g = ground (arith, held.is, held.not_null, length_kept b.traits len b.used whole)

  reuse-Detached :
      ltb b.refs 2 && (leb len b.size && not b.immutable) ≡ true → Detached s p b len s p
  reuse-Detached e = record {
    own = b;
    held = held;
    alone = ground (arith, held.counted);
    writable = ground arith;
    used = refl;
    traits = refl;
    room = ground arith;
    bytes = λ i h. refl;
    moves = λ q n. refl;
    others = λ q u w. refl;
    shared = λ h. ground arith;
    gone = λ h n. (let no : ⊥ = n refl in elim no [ ]);
  }

  -- One reference less at `p`, and one at the new address.
  double_put :
      ¬ (m.address ≡ p)
      → (o : Option Buffer) (c : Buffer) → count o + 1 ≡ b.refs
      → c.refs ≡ 1
      → Moves s p (put_buffer (put_buffer s p o) m.address (some c)) m.address
  double_put n o c e f q u =
      let old : refs s p ≡ b.refs = ap count held.is in
      let new : refs s m.address ≡ 0 = ap count free.free in
      ground (
        arith,
        refs-put_buffer (put_buffer s p o) m.address q (some c),
        refs-put_buffer s p q o,
        old,
        new,
        n,
        e,
        f,
      )

  -- A copy of a shared buffer.
  copied :
      (n : ℕ) × (c : Buffer) × (buffer_set next b.traits 0 (some b.bytes) b.used ≡ (ok n, c))
      × Sets next 0 (some b.bytes) b.used c
  unfolding next
  copied =
      buffer_set-Sets next 0 (some b.bytes) b.used
        (record { used_in = omega arith; small = (alloc_size-le len small).1 }) (omega arith)
        (omega (arith, alloc_size-le len small)) b.traits refl
        (aligned-copy b.traits len b.used whole)

  module _ (e : ltb b.refs 2 && (leb len b.size && not b.immutable) ≡ false)
      (f : leb 2 b.refs && (b.no_copy && not (b.used == 0)) ≡ false)
      (some_memory : ¬ (m.address ≡ 0)) where
    copy_runs :
        1 < b.refs
        → (n : ℕ) (c : Buffer) → buffer_set next b.traits 0 (some b.bytes) b.used ≡ (ok n, c)
        → detach s p len m
          ≡ done (
            put_buffer (put_buffer s p (some (record b { refs = b.refs - 1 }))) m.address (some c),
            m.address,
          )
    unfolding detach refcount_lower next
    copy_runs k n c g =
        ground (arith, held.is, held.not_null, length_kept b.traits len b.used whole)

    copy-Detached :
        1 < b.refs
        → (c : Buffer) → Sets next 0 (some b.bytes) b.used c
        → Detached s p b len
            (put_buffer (put_buffer s p (some (record b { refs = b.refs - 1 }))) m.address (some c))
            m.address
    unfolding next
    copy-Detached k c g = record {
      own = c;
      held = record {
        not_null = some_memory;
        is = ground arith;
        valid = g.valid;
        counted = ground (arith, g.header.refs);
        whole =
            whole_same b.traits c.traits b.used c.used g.header.traits (ground (arith, g.used))
              held.whole;
      };
      alone = g.header.refs;
      writable = g.header.immutable;
      used = ground (arith, g.used);
      traits = g.header.traits;
      room = omega (arith, g.header.size, alloc_size-le len small);
      bytes = λ i h. ground (arith, g.used, g.bytes i);
      moves = double_put not_same _ _ (omega arith) g.header.refs;
      others =
          λ q u w. put_buffer_other (put_buffer s p _) m.address q _ w ∙ put_buffer_other s p q _ u;
      shared = λ h. (
        not_same,
        put_buffer_other (put_buffer s p _) m.address p _ (λ z. not_same (sym z))
            ∙ put_buffer_here s p _,
      );
      gone = λ h n. (let no : ⊥ = omega arith in elim no [ ]);
    }

    moved_size : ℕ
    moved_size = b.used

    move_runs :
        b.refs ≡ 1
        → detach s p len m
          ≡ done (
            put_buffer
                (put_buffer s p none)
                m.address
                (some (record next { bytes = blit m.junk 0 b.bytes 0 b.used; used = b.used })),
            m.address,
          )
    unfolding detach refcount_lower next
    move_runs k = elim (Option-cases b.traits) [
      | inl o ↦ ground (
        arith,
        held.is,
        held.not_null,
        length_kept b.traits len b.used whole,
        alloc_size-le len small,
      )
      | inr (t, o) ↦ ground (
        arith,
        held.is,
        held.not_null,
        length_kept b.traits len b.used whole,
        alloc_size-le len small,
      )
    ]

    move-Detached :
        b.refs ≡ 1
        → Detached s p b len
            (put_buffer
              (put_buffer s p none)
              m.address
              (some (record next { bytes = blit m.junk 0 b.bytes 0 b.used; used = b.used })))
            m.address
    unfolding next
    move-Detached k = record {
      own = record next { bytes = blit m.junk 0 b.bytes 0 b.used; used = b.used };
      held = record {
        not_null = some_memory;
        is = ground arith;
        valid = record {
          used_in = omega (arith, alloc_size-le len small);
          small = (alloc_size-le len small).1;
        };
        counted = omega arith;
        whole = held.whole;
      };
      alone = refl;
      writable = refl;
      used = refl;
      traits = refl;
      room = (alloc_size-le len small).0;
      bytes = λ i h. ground (arith, ap b.bytes (zero_plus i));
      moves = double_put not_same _ _ (omega arith) refl;
      others =
          λ q u w. put_buffer_other (put_buffer s p _) m.address q _ w ∙ put_buffer_other s p q _ u;
      shared = λ h. (let none_left : ⊥ = omega arith in elim none_left [ ]);
      gone = λ h n.
          put_buffer_other (put_buffer s p _) m.address p _ (λ z. not_same (sym z))
          ∙ put_buffer_here s p _;
    }

  -- A call with a length for all of the content, in whole elements, gives a buffer of the array's own
  -- with the same content and references that add up, or changes nothing: this only without memory,
  -- or if the content is shared and must not be copied.
  pub detach-Detaches : Detaches s p b len m (detach s p len m)
  detach-Detaches = elim (Bool-cases (ltb b.refs 2 && (leb len b.size && not b.immutable))) [
    | inl e ↦ detached s p (reuse e) (reuse-Detached e)
    | inr e ↦ elim (Bool-cases (leb 2 b.refs && (b.no_copy && not (b.used == 0)))) [
      | inl f ↦ refused (ground arith) (blocked e f)
      | inr f ↦ elim (ℕ_discrete m.address 0) [
        | yes z ↦ refused (ground arith) (no_memory e f z)
        | no n ↦ elim (ℕ_discrete b.refs 1) [
          | yes k ↦ detached _ m.address (move_runs e f n k) (move-Detached e f n k)
          | no k ↦
              (let (r, c, g, sets) = copied in
                let more : 1 < b.refs = omega (arith, held.counted) in
                detached _ m.address (copy_runs e f n more r c g) (copy-Detached e f n more c sets))
        ]
      ]
    ]
  ]
