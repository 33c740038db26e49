-- ===== src/Queue/Align/Laws.antt =====
-- `mpt_queue_align` keeps the sequence of bytes.
use mpt_base.Prelude.{
  ℕ, ◌+◌, ◌-◌, ◌<◌, ◌≤◌, ◌≡◌, ◌≢◌, ◌==◌, ltb, refl, ◌∙◌, if◌then◌else◌, arith, done, Run, ok, true,
  false, inl, inr, Bool-cases, leb-true, ◌^◌, ltb-false, ==-false, sym, ◌>>=◌,
}
use native.Mathlib.Decide.{ℕ_discrete}
use mpt_base.Prelude.Mem.{Bytes, blit, sub_size}
use mpt_base.Memory.Rotate.{memrev}
use mpt_base.Memory.Rotate.Laws.{rotated, memrev_lem}
use mpt_base.Queue.{Queue, is_frag}
use mpt_base.Queue.Align.{reverse_in, align_wrapped, align_block, queue_align, close_gap}
use mpt_base.Queue.Contents.{IsValid, at}

-- The same bytes in the same order, in memory of the same size.
pub record SameBytes (q q' : Queue) : Type 0 where
  pub valid : IsValid q'
  pub len : q'.len ≡ q.len
  pub max : q'.max ≡ q.max
  pub mapped : q'.mapped ≡ q.mapped
  pub bytes : (i : ℕ) → i < q.len → at q' i ≡ at q i

pub sub_size-sub : (a b : ℕ) → b ≤ a → a < 2 ^ 63 → sub_size a b ≡ a - b
sub_size-sub a b h l = omega arith

frag-lt : (q : Queue) → IsValid q → is_frag q ≡ true → q.max - q.len < q.off
frag-lt q v f = ground arith

-- The memory once the first segment has closed the gap.
abbrev moved : Queue → Bytes
moved q =
    let space = q.max - q.len in
    if space == 0 then q.bytes else blit q.bytes (q.off - space) q.bytes q.off (q.max - q.off)

rotated-moved :
    (q : Queue) (i : ℕ)
    → q.max - q.len < q.off
    → q.off ≤ q.max
    → q.len ≤ q.max
    → i < q.len
    → rotated (moved q) 0 (q.off - (q.max - q.len)) (q.len - (q.off - (q.max - q.len))) i ≡ at q i
rotated-moved q i f o l h = ground arith

close_gap-moved : (q : Queue) → IsValid q → is_frag q ≡ true → close_gap q ≡ done (moved q)
unfolding close_gap
close_gap-moved q v f = ground arith

reverse_in-done :
    (q : Queue) (at pre len : ℕ) (m : Bytes)
    → at + len ≤ q.max
    → memrev q.bytes at pre len ≡ done (ok 0, m)
    → reverse_in q at pre len ≡ done (record q { bytes = m })
unfolding reverse_in
reverse_in-done q at pre len m h e = rw (leb-true (at + len) q.max h, e)

align_wrapped-ok :
    (q : Queue)
    → IsValid q
    → is_frag q ≡ true
    → (q' : Queue) × (align_wrapped q ≡ done q') × SameBytes q q' × (q'.off ≡ 0)
unfolding align_wrapped
align_wrapped-ok q v f =
    let frag = frag-lt q v f in
    let space = q.max - q.len in
    let pre = q.off - space in
    let (m', e, r) = (memrev_lem (moved q) 0 pre q.len).0 (omega (arith, v)) in
    (
      record q { bytes = m'; off = 0 },
      rw (close_gap-moved q v f, sub_size-sub q.max q.len v.len_in v.small)
          (rw (
            reverse_in-done (record q { bytes = moved q; off = pre }) 0 pre q.len m'
              (omega (arith, v)) e)),
      record {
        valid = omega (arith, v);
        len = refl;
        max = refl;
        mapped = refl;
        bytes = λ i l. ground (arith, r i, rotated-moved q i frag v.off_in v.len_in l, v);
      },
      refl,
    )

align_block-ok :
    (q : Queue) (pos : ℕ)
    → IsValid q
    → is_frag q ≡ false
    → pos ≤ q.max - q.len
    → (q' : Queue) × (align_block q pos ≡ done q') × SameBytes q q' × (q'.off ≡ pos)
unfolding align_block
align_block-ok q pos v f h = (
  record q { bytes = blit q.bytes pos q.bytes q.off q.len; off = pos },
  ground arith,
  record {
    valid = ground arith;
    len = refl;
    max = refl;
    mapped = refl;
    bytes = λ i l. ground arith;
  },
  refl,
)

SameBytes-trans : {q r s : Queue} → SameBytes q r → SameBytes r s → SameBytes q s
SameBytes-trans a b = record {
  valid = b.valid;
  len = b.len ∙ a.len;
  max = b.max ∙ a.max;
  mapped = b.mapped ∙ a.mapped;
  bytes = λ i l. b.bytes i (omega (arith, a.len)) ∙ a.bytes i l;
}

SameBytes-self : (q : Queue) → IsValid q → SameBytes q q
SameBytes-self q v = record {
  valid = v;
  len = refl;
  max = refl;
  mapped = refl;
  bytes = λ i l. refl;
}

-- What a successful alignment leaves.
abbrev pub Aligned : Run Queue → Queue → ℕ → Type 0
Aligned r q pos = (q' : Queue) × (r ≡ done q') × SameBytes q q' × (q'.off ≡ pos)

align_after_wrap :
    (q : Queue) (pos : ℕ)
    → IsValid q
    → is_frag q ≡ true
    → pos ≤ q.max - q.len
    → Aligned (align_wrapped q >>= λ q'. if pos == 0 then done q' else align_block q' pos) q pos
align_after_wrap q pos v f h =
    let (q₁, e, same, start) = align_wrapped-ok q v f in
    elim (ℕ_discrete pos 0) [
      | yes z ↦ (q₁, rw (e, z), same, start ∙ sym z)
      | no nz ↦
          let (q₂, e', same', at_pos) =
            align_block-ok q₁ pos same.valid (ground (arith, same.len, same.max, same.valid))
              (omega (arith, same.len, same.max)) in
          (q₂, rw (e, ==-false pos 0 nz) e', SameBytes-trans same same', at_pos)
    ]

-- Aligning data to the start of the memory, or to any position from which it does not wrap, ends
-- with the same bytes in the same order at that position, and touches nothing outside of the memory.
pub queue_align-ok :
    (q : Queue) (pos : ℕ)
    → IsValid q
    → q.mapped ≡ true
    → q.len ≢ 0
    → pos ≤ q.max - q.len
    → Aligned (queue_align q pos) q pos
unfolding queue_align
queue_align-ok q pos v mp ne h =
    let inside : ltb q.max pos ≡ false = ltb-false q.max pos (omega arith) in
    elim (Bool-cases (is_frag q)) [
      | inl f ↦ simp (inside, ==-false q.len 0 ne, mp, f) (align_after_wrap q pos v f h)
      | inr f ↦ elim (ℕ_discrete pos q.off) [
        | yes e ↦ (q, ground arith, SameBytes-self q v, sym e)
        | no d ↦
            simp (inside, ==-false q.len 0 ne, mp, f, ==-false pos q.off d)
              (align_block-ok q pos v f h)
      ]
    ]

pub queue_align-zero : (q : Queue) → IsValid q → q.mapped ≡ true → Aligned (queue_align q 0) q 0
queue_align-zero q v mp = elim (ℕ_discrete q.len 0) [
  | yes z ↦ (
    record q { off = 0 },
    unfold queue_align in rw (ltb-false q.max 0 (omega arith)) (ground arith),
    record {
      valid = omega (arith, v);
      len = refl;
      max = refl;
      mapped = refl;
      bytes = λ i l. absurd (omega arith);
    },
    refl,
  )
  | no nz ↦ queue_align-ok q 0 v mp nz (omega arith)
]
