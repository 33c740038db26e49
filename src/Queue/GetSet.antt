-- ===== src/Queue/GetSet.antt =====
-- `mpt_queue_get` and `mpt_queue_set`: which bytes of the queue they read and write.
use mpt_base.Prelude.{
  ℕ, zero, suc, ◌+◌, ◌-◌, ◌<◌, ◌≤◌, ◌≡◌, ◌==◌, ◌&&◌, ltb, leb, refl, if◌then◌else◌, arith, done, ok,
  err, bad_argument, some, Option,
}
use native.Mathlib.Decide.{dec_lt}
use mpt_base.Prelude.Mem.{Bytes}
use mpt_base.Queue.{Queue, source, data_low, data_low, queue_set, queue_get}
use mpt_base.Queue.Contents.{IsValid, at}
use mpt_base.Queue.Access.{
  written, fetched, advanced, advanced-ok, advanced-address, advanced-address_before, skip-some,
  skip-none, write_parts-done, read_parts-done, written-address, fetched-at,
}

-- A read within a valid queue returns a count and copies exactly the bytes from the position on, in
-- queue order, whether they wrap or not; the rest of the target is as before.
pub queue_get-ok :
    (q : Queue) (pos n : ℕ) (d : Bytes)
    → IsValid q
    → pos + n ≤ q.len
    → (r : ℕ) × (d' : Bytes) × (queue_get q pos n (some d) ≡ done (ok r, some d'))
      × ((i : ℕ) → d' i ≡ (if ltb i n then at q (pos + i) else d i))
unfolding queue_get
queue_get-ok q pos zero d v h = (0, d, refl, λ i. ground arith)
queue_get-ok q pos (suc n) d v h =
    let (flag, e) = skip-some q pos v (omega arith) in
    let (v', len', bytes', max') = advanced-ok q pos v (omega arith) in
    let a = advanced q pos in
    let fits : suc n ≤ a.max = omega arith in
    (
      if suc n - data_low (record a { len = suc n }) == 0 then flag else flag + 2,
      fetched a (suc n) d,
      rw e (ground (arith, read_parts-done a (suc n) d v' fits)),
      λ i. ground (arith, fetched-at a (suc n) i d v' fits, advanced-address q pos i v),
    )

-- A read of one byte or more that goes past the end is refused, and copies nothing.
pub queue_get-range :
    (q : Queue) (pos n : ℕ) (d : Option Bytes)
    → IsValid q
    → 0 < n
    → q.len < pos + n
    → queue_get q pos n d ≡ done (err bad_argument, d)
unfolding queue_get
queue_get-range q pos zero d v h l = absurd (omega arith)
queue_get-range q pos (suc n) d v h l = elim (dec_lt q.len pos) [
  | yes out ↦ rw (skip-none q pos v out) (ground arith)
  | no in_data ↦
      let (flag, e) = skip-some q pos v (omega arith) in
      let (v', len', bytes', max') = advanced-ok q pos v (omega arith) in rw e (ground arith)
]

-- The queue with the bytes from `pos` to `pos + n` replaced.
pub record Overwrites (q : Queue) (pos n : ℕ) (d : Bytes) (q' : Queue) : Type 0 where
  pub valid : IsValid q'
  pub same_len : q'.len ≡ q.len
  pub same_max : q'.max ≡ q.max
  pub same_off : q'.off ≡ q.off
  pub bytes :
      (i : ℕ) → i < q.len → at q' i ≡ (if leb pos i && ltb i (pos + n) then d (i - pos) else at q i)

-- A write within a valid queue replaces exactly the bytes from the position on, by the data or by
-- zeros if there is none, whether they wrap or not.
pub queue_set-ok :
    (q : Queue) (pos n : ℕ) (d : Option Bytes)
    → IsValid q
    → pos + n ≤ q.len
    → (r : ℕ) × (q' : Queue) × (queue_set q pos n d ≡ done (ok r, q'))
      × Overwrites q pos n (source d) q'
unfolding queue_set
queue_set-ok q pos zero d v h = (
  0,
  q,
  refl,
  record {
    valid = v;
    same_len = refl;
    same_max = refl;
    same_off = refl;
    bytes = λ i l. ground arith;
  },
)
queue_set-ok q pos (suc n) d v h =
    let (flag, e) = skip-some q pos v (omega arith) in
    let (v', len', bytes', max') = advanced-ok q pos v (omega arith) in
    let a = advanced q pos in
    let fits : suc n ≤ a.max = omega arith in
    let m = written a (suc n) (source d) in
    (
      if suc n - data_low (record a { len = suc n }) == 0 then flag else flag + 2,
      record q { bytes = m },
      rw e (ground (arith, write_parts-done a (suc n) d v' fits)),
      record {
        valid = record { small = v.small; off_in = v.off_in; len_in = v.len_in };
        same_len = refl;
        same_max = refl;
        same_off = refl;
        bytes = λ i l. elim (dec_lt i pos) [
          | yes before ↦ ground (
            arith,
            written-address a (suc n) (i + (q.max - pos)) (source d) v' fits,
            advanced-address_before q pos i v,
          )
          | no behind ↦ ground (
            arith,
            written-address a (suc n) (i - pos) (source d) v' fits,
            advanced-address q pos (i - pos) v,
          )
        ];
      },
    )
