-- ===== src/Queue/Align/Resize.antt =====
-- `mpt_queue_resize` and `mpt_queue_prepare`: which bytes survive a change of the memory's size.
use mpt_base.Prelude.{
  ℕ, ◌+◌, ◌-◌, ◌^◌, ◌<◌, ◌≤◌, ◌≡◌, ◌≢◌, ltb, refl, ap, ◌∙◌, if◌then◌else◌, arith, done, Bool, true,
  false, inl, inr, Bool-cases, ltb-true, ltb-false, leb-false, ==-false, ◌>>=◌, ◌%◌,
}
use native.Mathlib.Decide.{dec_lt, dec_le}
use mpt_base.Queue.{Queue, is_frag, crop_front}
use mpt_base.Queue.Contents.{IsValid, at}
use mpt_base.Queue.Take.{Drops, crop_front-Drops}
use mpt_base.Queue.Align.{queue_align, queue_resize, queue_prepare, align_size, regrow}
use mpt_base.Queue.Align.Laws.{SameBytes, queue_align-zero, sub_size-sub}

-- The queue in memory of size `n`: its last bytes, as many as fit.
pub record Resized (q : Queue) (n : ℕ) (q' : Queue) : Type 0 where
  pub valid : IsValid q'
  pub max : q'.max ≡ n
  pub len : q'.len ≡ (if ltb n q.len then n else q.len)
  pub bytes : (i : ℕ) → i < q'.len → at q' i ≡ at q (q.len - q'.len + i)

crop_front-mapped : (q : Queue) (n : ℕ) → (crop_front q n).1.mapped ≡ q.mapped
unfolding crop_front
crop_front-mapped q n = ground arith

-- Aligned data in memory that is cut or enlarged behind it.
SameBytes-Resized :
    (q a q' : Queue) (n : ℕ)
    → IsValid q
    → n < 2 ^ 63
    → Drops q (q.len - n) a
    → SameBytes a q'
    → (q'.off ≡ 0)
    → Resized q n (record q' { max = n; mapped = true })
SameBytes-Resized q a q' n v small d s z = record {
  valid = ground (arith, s.len, d.len);
  max = refl;
  len = ground (arith, s.len, d.len);
  bytes = λ i l. ground (arith, s.bytes i, d.bytes i, s.len, d.len, s.max);
}

Drops-Resized :
    (alloc : ℕ → Bool) (q a : Queue) (n : ℕ)
    → IsValid q
    → n < 2 ^ 63
    → alloc n ≡ true
    → a.mapped ≡ true
    → Drops q (q.len - n) a
    → (q' : Queue) × ((queue_align a 0 >>= regrow alloc n) ≡ done (true, q')) × Resized q n q'
Drops-Resized alloc q a n v small ok mp d =
    let (b, e, same, start) = queue_align-zero a d.valid mp in
    (
      record b { max = n; mapped = true },
      rw (e, ok),
      SameBytes-Resized q a b n v small d same start,
    )

Drops-none : (q : Queue) (n : ℕ) → IsValid q → n ≡ 0 → Drops q n q
Drops-none q n v z = record {
  valid = v;
  len = omega arith;
  max = refl;
  bytes = λ i l. ap (at q) (omega arith);
}

IsValid-Resized :
    (q : Queue) (n : ℕ)
    → IsValid q
    → n < 2 ^ 63
    → q.max ≤ n
    → is_frag q ≡ false
    → Resized q n (record q { max = n; mapped = true })
IsValid-Resized q n v small le f = record {
  valid = ground arith;
  max = refl;
  len = ground arith;
  bytes = λ i l. ground arith;
}

-- Where `realloc` has the memory, a change of a valid queue's size to anything but 0 ends with the
-- last bytes of the queue, as many as fit, in order; nothing is lost where the new size holds all.
pub queue_resize-ok :
    (alloc : ℕ → Bool) (q : Queue) (n : ℕ)
    → IsValid q
    → q.mapped ≡ true
    → n ≢ 0
    → n < 2 ^ 63
    → alloc n ≡ true
    → (q' : Queue) × (queue_resize alloc q n ≡ done (true, q')) × Resized q n q'
unfolding queue_resize
queue_resize-ok alloc q n v mp ne small ok = elim (dec_lt n q.max) [
  | yes less ↦ elim (dec_lt n q.len) [
    | yes cut ↦
        simp (==-false n 0 ne, ltb-true n q.max less, ltb-true n q.len cut)
          (Drops-Resized alloc q (crop_front q (q.len - n)).1 n v small ok
            (crop_front-mapped q (q.len - n) ∙ mp) (crop_front-Drops q (q.len - n) v (omega arith)))
    | no keep ↦
        simp (==-false n 0 ne, ltb-true n q.max less, ltb-false n q.len (omega arith))
          (Drops-Resized alloc q q n v small ok mp (Drops-none q (q.len - n) v (omega arith)))
  ]
  | no not_less ↦ elim (dec_lt q.max n) [
    | yes more ↦ elim (Bool-cases (is_frag q)) [
      | inl f ↦
          simp (==-false n 0 ne, ltb-false n q.max (omega arith), ltb-true q.max n more, f)
            (Drops-Resized alloc q q n v small ok mp (Drops-none q (q.len - n) v (omega arith)))
      | inr f ↦ (
        record q { max = n; mapped = true },
        simp (==-false n 0 ne, ltb-false n q.max (omega arith), ltb-true q.max n more, f, ok),
        IsValid-Resized q n v small (omega arith) f,
      )
    ]
    | no same ↦ (
      q,
      simp (==-false n 0 ne, ltb-false n q.max (omega arith), ltb-false q.max n (omega arith), mp),
      record {
        valid = v;
        max = omega arith;
        len = ground arith;
        bytes = λ i l. ap (at q) (omega arith);
      },
    )
  ]
]

align_size-bounds : (x : ℕ) → 0 < x → x < 2 ^ 63 → (x ≤ align_size x) × (align_size x < x + 8)
align_size-bounds x p h = omega arith

-- The size that is asked for, and the answer once the memory is there.
abbrev wanted : Queue → ℕ → ℕ
wanted q n = align_size ((n - (q.max - q.len) + q.max) % 2 ^ 64)

queue_prepare-resized :
    (alloc : ℕ → Bool) (q q' : Queue) (n : ℕ)
    → IsValid q
    → IsValid q'
    → q.max - q.len < n
    → n < 2 ^ 61
    → queue_resize alloc q (wanted q n) ≡ done (true, q')
    → queue_prepare alloc q n ≡ done (q'.max - q'.len, q')
unfolding queue_prepare
queue_prepare-resized alloc q q' n v v' short small e = simp (
  sub_size-sub q.max q.len v.len_in v.small,
  leb-false n (q.max - q.len) short,
  ltb-false (2 ^ 64 - 1 - (q.max - q.len)) n (omega arith),
  e,
  sub_size-sub q'.max q'.len v'.len_in v'.small,
)

-- A request for space on a valid queue, where `realloc` has the memory and all sizes stay below
-- 2 ^ 61, ends with that space at least and with the same bytes in order.
pub queue_prepare-ok :
    (alloc : ℕ → Bool) (q : Queue) (n : ℕ)
    → IsValid q
    → q.mapped ≡ true
    → ((m : ℕ) → alloc m ≡ true)
    → n < 2 ^ 61
    → q.max < 2 ^ 61
    → (left : ℕ) × (q' : Queue) × (queue_prepare alloc q n ≡ done (left, q'))
      × (n ≤ left)
      × (q'.len + left ≡ q'.max)
      × (q'.len ≡ q.len)
      × ((i : ℕ) → i < q.len → at q' i ≡ at q i)
unfolding queue_prepare
queue_prepare-ok alloc q n v mp ok small fits = elim (dec_le n (q.max - q.len)) [
  | yes room ↦ (q.max - q.len, q, ground arith, room, omega (arith, v), refl, λ i l. refl)
  | no short ↦
      let size = wanted q n in
      let (lo, hi) =
        align_size-bounds ((n - (q.max - q.len) + q.max) % 2 ^ 64) (omega arith) (omega arith) in
      let (q', e, r) = queue_resize-ok alloc q size v mp (omega arith) (omega arith) (ok size) in
      let same : q'.len ≡ q.len = ground (arith, r.len) in
      (
        q'.max - q'.len,
        q',
        queue_prepare-resized alloc q q' n v r.valid (omega arith) small e,
        omega (arith, r, same),
        omega (arith, r.valid),
        same,
        λ i l. r.bytes i (omega (arith, same)) ∙ ap (at q) (omega (arith, same)),
      )
]
