-- ===== src/Queue/Push.antt =====
-- Bytes added at the end and at the start: `mpt_qpush` and `mpt_qunshift` against the sequence.
use mpt_base.Prelude.{
  ℕ, ◌+◌, ◌-◌, ◌/◌, ◌%◌, ◌^◌, ◌<◌, ◌≤◌, ◌≡◌, ltb, negative, ◌∙◌, ◌⊎◌, inl, inr, if◌then◌else◌,
  arith, done, fault, ok, err, missing_buffer, Option,
}
use native.Mathlib.Decide.{dec_lt}
use mpt_base.Prelude.Int.{as_int_low, as_int_high}
use mpt_base.Prelude.Mem.{Bytes, sub_size}
use mpt_base.Queue.{Queue, source}
use mpt_base.Queue.Ends.{qpost, qpre, qpush, qunshift, qpush_by, qunshift_by}
use mpt_base.Queue.Contents.{IsValid, at}
use mpt_base.Queue.GetSet.{queue_set-ok}

qpost-ok :
    (q : Queue) (n : ℕ)
    → IsValid q
    → 0 < n
    → q.len + n ≤ q.max
    → qpost q n ≡ done (ok ((q.max - q.len - n) / n), record q { len = q.len + n })
unfolding qpost
qpost-ok q n v p h = ground arith

qpost-full :
    (q : Queue) (n : ℕ) → IsValid q → q.max < q.len + n → qpost q n ≡ done (err missing_buffer, q)
unfolding qpost
qpost-full q n v h = ground arith

-- The new queue holds the old bytes, then `n` bytes of `d`.
pub record Appends (q : Queue) (n : ℕ) (d : Bytes) (q' : Queue) : Type 0 where
  pub valid : IsValid q'
  pub len : q'.len ≡ q.len + n
  pub max : q'.max ≡ q.max
  pub bytes : (i : ℕ) → i < q.len + n → at q' i ≡ (if ltb i q.len then at q i else d (i - q.len))

-- The count of further blocks of `n` bytes, in the 32 bits of an int.
abbrev pub int_count : Queue → (n : ℕ) → ℕ
int_count q n = (q.max - q.len - n) / n % 2 ^ 32

-- A push of one byte or more that fits appends the bytes, or zeros if there are none, in order, and
-- keeps the others, if the count of blocks of this size that still fit is not negative as an int.
-- If it is, the result is that negative number, and the queue's length has grown by the size with
-- nothing written.
pub qpush-ok :
    (q : Queue) (n : ℕ) (d : Option Bytes)
    → IsValid q
    → 0 < n
    → q.len + n ≤ q.max
    → ((int_count q n < 2 ^ 31)
        × ((r : ℕ) × (q' : Queue) × (qpush q n d ≡ done (ok r, q')) × Appends q n (source d) q'))
      ⊎ ((2 ^ 31 ≤ int_count q n)
          × (qpush q n d
              ≡ done (err (negative (2 ^ 32 - int_count q n)), record q { len = q.len + n })))
qpush-ok q n d v p h = elim (dec_lt (int_count q n) (2 ^ 31)) [
  | yes k ↦
      let q₁ : Queue = record q { len = q.len + n } in
      let v₁ : IsValid q₁ = record { small = v.small; off_in = v.off_in; len_in = h } in
      let (r, q₂, e, o) = queue_set-ok q₁ q.len n d v₁ (omega arith) in
      let back : sub_size (q.len + n) n ≡ q.len = omega (arith, v) in
      inl (
        k,
        (
          r,
          q₂,
          qpush_by q q₁ n ((q.max - q.len - n) / n) (ok (int_count q n)) d (qpost-ok q n v p h)
                (as_int_low ((q.max - q.len - n) / n) k)
              ∙ rw back e,
          record {
            valid = o.valid;
            len = o.same_len;
            max = o.same_max;
            bytes = λ i l. ground (arith, o.bytes i l);
          },
        ),
      )
  | no k ↦
      (let high : 2 ^ 31 ≤ int_count q n = omega arith in
        inr (
          high,
          qpush_by q (record q { len = q.len + n }) n ((q.max - q.len - n) / n)
              (err (negative (2 ^ 32 - int_count q n))) d (qpost-ok q n v p h)
              (as_int_high ((q.max - q.len - n) / n) high),
        ))
]

-- A push that does not fit is refused with MissingBuffer, and one of no bytes to a queue with space
-- divides by zero.
pub qpush_refused :
    (q : Queue) (n : ℕ) (d : Option Bytes)
    → IsValid q
    → (q.max < q.len + n → qpush q n d ≡ done (err missing_buffer, q))
      × (n ≡ 0 → q.len < q.max → qpush q n d ≡ fault)
unfolding qpush qpost
qpush_refused q n d v = (λ h. ground arith, λ z h. ground arith)

-- Where `qpre` puts the new start.
abbrev pub pre_start : Queue → ℕ → ℕ
pre_start q n = if ltb n q.off then q.off - n else q.off + (q.max - n)

qpre-ok :
    (q : Queue) (n : ℕ)
    → IsValid q
    → 0 < n
    → q.len + n ≤ q.max
    → qpre q n
      ≡ done (ok ((q.max - q.len - n) / n), record q { len = q.len + n; off = pre_start q n })
unfolding qpre
qpre-ok q n v p h = ground arith

-- The new queue holds `n` bytes of `d`, then the old bytes.
pub record Prepends (q : Queue) (n : ℕ) (d : Bytes) (q' : Queue) : Type 0 where
  pub valid : IsValid q'
  pub len : q'.len ≡ q.len + n
  pub max : q'.max ≡ q.max
  pub bytes : (i : ℕ) → i < q.len + n → at q' i ≡ (if ltb i n then d i else at q (i - n))

-- A write in front of the data, of one byte or more that fits, puts the bytes, or zeros if there are
-- none, before the others, which it keeps in order, if the count of blocks of this size that still
-- fit is not negative as an int. If it is, the result is that negative number, and the queue's
-- offset and length have moved by the size with nothing written.
pub qunshift-ok :
    (q : Queue) (n : ℕ) (d : Option Bytes)
    → IsValid q
    → 0 < n
    → q.len + n ≤ q.max
    → ((int_count q n < 2 ^ 31)
        × ((r : ℕ) × (q' : Queue) × (qunshift q n d ≡ done (ok r, q'))
            × Prepends q n (source d) q'))
      ⊎ ((2 ^ 31 ≤ int_count q n)
          × (qunshift q n d
              ≡ done (
                err (negative (2 ^ 32 - int_count q n)),
                record q { len = q.len + n; off = pre_start q n },
              )))
qunshift-ok q n d v p h = elim (dec_lt (int_count q n) (2 ^ 31)) [
  | yes k ↦
      let q₁ : Queue = record q { len = q.len + n; off = pre_start q n } in
      let v₁ : IsValid q₁ = record { small = v.small; off_in = ground arith; len_in = h } in
      let (r, q₂, e, o) = queue_set-ok q₁ 0 n d v₁ (omega arith) in
      inl (
        k,
        (
          r,
          q₂,
          qunshift_by q q₁ n ((q.max - q.len - n) / n) (ok (int_count q n)) d (qpre-ok q n v p h)
                (as_int_low ((q.max - q.len - n) / n) k)
              ∙ e,
          record {
            valid = o.valid;
            len = o.same_len;
            max = o.same_max;
            bytes = λ i l. ground (arith, o.bytes i l);
          },
        ),
      )
  | no k ↦
      (let high : 2 ^ 31 ≤ int_count q n = omega arith in
        inr (
          high,
          qunshift_by q (record q { len = q.len + n; off = pre_start q n }) n
              ((q.max - q.len - n) / n) (err (negative (2 ^ 32 - int_count q n))) d
              (qpre-ok q n v p h) (as_int_high ((q.max - q.len - n) / n) high),
        ))
]

-- A write in front of the data that does not fit is refused with MissingBuffer while the queue has
-- any space; on a full queue it reads sizes that were never written, and one of no bytes faults too.
pub qunshift_refused :
    (q : Queue) (n : ℕ) (d : Option Bytes)
    → IsValid q
    → (q.len < q.max → q.max < q.len + n → qunshift q n d ≡ done (err missing_buffer, q))
      × (q.len ≡ q.max → qunshift q n d ≡ fault)
      × (n ≡ 0 → qunshift q n d ≡ fault)
unfolding qunshift qpre
qunshift_refused q n d v = (λ l h. ground arith, λ h. ground arith, λ z. ground arith)
