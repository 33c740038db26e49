-- ===== src/Queue/Take.antt =====
-- Bytes taken from the start and from the end: `mpt_qshift` and `mpt_qpop`.
use mpt_base.Prelude.{
  ℕ, ◌+◌, ◌-◌, ◌<◌, ◌≤◌, ◌≡◌, ltb, leb, if◌then◌else◌, arith, done, fault, true, false, some, none,
}
use mpt_base.Prelude.Mem.{Bytes, blit}
use mpt_base.Queue.{Queue, data_low, crop_front, is_frag}
use mpt_base.Queue.Ends.{Taken, invalid, range, inside, buffer, qshift, qpop}
use mpt_base.Queue.Contents.{IsValid, at, crop_front-IsValid, crop_front-ok, crop_front-at}

-- The queue holds what is left behind its first `n` bytes.
pub record Drops (q : Queue) (n : ℕ) (q' : Queue) : Type 0 where
  pub valid : IsValid q'
  pub len : q'.len ≡ q.len - n
  pub max : q'.max ≡ q.max
  pub bytes : (i : ℕ) → n + i < q.len → at q' i ≡ at q (n + i)

pub crop_front-Drops : (q : Queue) (n : ℕ) → IsValid q → n ≤ q.len → Drops q n (crop_front q n).1
crop_front-Drops q n v h =
    let (len', bytes', max') = crop_front-ok q n v h in
    record {
      valid = crop_front-IsValid n v;
      len = len';
      max = max';
      bytes = λ i l. ground (arith, crop_front-at q n i v l);
    }

-- The target after the copies of `mpt_qshift`.
abbrev shifted : Queue → ℕ → Bytes → Bytes
shifted q n d =
    let low = data_low q in
    if leb n low
    then blit d 0 q.bytes q.off n
    else blit (blit d 0 q.bytes q.off low) low q.bytes 0 (n - low)

shifted-at :
    (q : Queue) (n i : ℕ) (d : Bytes)
    → IsValid q
    → n ≤ q.len
    → shifted q n d i ≡ (if ltb i n then at q i else d i)
shifted-at q n i d v h = ground arith

qshift-shifted :
    (q : Queue) (n : ℕ) (d : Bytes)
    → IsValid q
    → n ≤ q.len
    → qshift q n (some d)
      ≡ done (
        if leb n (data_low q) then inside q.off else buffer,
        some (shifted q n d),
        (crop_front q n).1,
      )
unfolding qshift
qshift-shifted q n d v h = ground arith

-- A shift into a buffer, of no more bytes than there are, copies the first bytes in order, and
-- leaves the queue of the others.
pub qshift-ok :
    (q : Queue) (n : ℕ) (d : Bytes)
    → IsValid q
    → n ≤ q.len
    → (t : Taken) × (d' : Bytes) × (q' : Queue) × (qshift q n (some d) ≡ done (t, some d', q'))
      × ((i : ℕ) → d' i ≡ (if ltb i n then at q i else d i))
      × Drops q n q'
qshift-ok q n d v h = (
  if leb n (data_low q) then inside q.off else buffer,
  shifted q n d,
  (crop_front q n).1,
  qshift-shifted q n d v h,
  λ i. shifted-at q n i d v h,
  crop_front-Drops q n v h,
)

-- A shift of too many bytes fails with ERANGE, one over both segments without a buffer with EINVAL,
-- and both leave the queue as it is. Without a buffer, what lies in the first segment is handed out
-- in place.
pub qshift_others :
    (q : Queue) (n : ℕ) (d : Bytes)
    → IsValid q
    → (q.len < n → qshift q n (some d) ≡ done (range, some d, q))
      × (data_low q < n → qshift q n none ≡ done (invalid, none, q))
      × (n ≤ data_low q
          → (q' : Queue) × (qshift q n none ≡ done (inside q.off, none, q')) × Drops q n q')
unfolding qshift
qshift_others q n d v = (
  λ h. ground arith,
  λ h. ground arith,
  λ h. ((crop_front q n).1, ground arith, crop_front-Drops q n v (ground arith)),
)

-- While data wraps, a pop of no more bytes than the second segment holds copies the last bytes in
-- order and takes them off the end.
pub qpop_wrapped :
    (q : Queue) (n : ℕ) (d : Bytes)
    → IsValid q
    → is_frag q ≡ true
    → n ≤ q.len - data_low q
    → (t : Taken) × (d' : Bytes) × (qpop q n (some d)
        ≡ done (t, some d', record q { len = q.len - n }))
      × ((i : ℕ) → d' i ≡ (if ltb i n then at q (q.len - n + i) else d i))
unfolding qpop
qpop_wrapped q n d v f h =
    let high = q.len - data_low q in
    (inside (high - n), blit d 0 q.bytes (high - n) n, ground arith, λ i. ground arith)

-- While data does not wrap, a pop takes `n` bytes off the end and copies the first `n` bytes of the
-- queue instead of the last.
pub qpop_aligned :
    (q : Queue) (n : ℕ) (d : Bytes)
    → IsValid q
    → is_frag q ≡ false
    → n ≤ q.len
    → (d' : Bytes) × (qpop q n (some d)
        ≡ done (inside q.off, some d', record q { len = q.len - n }))
      × ((i : ℕ) → d' i ≡ (if ltb i n then at q i else d i))
unfolding qpop
qpop_aligned q n d v f h = (blit d 0 q.bytes q.off n, ground arith, λ i. ground arith)

-- A pop over both segments leaves the bytes of the second segment on the queue, or, where the second
-- segment is longer than the part taken from the first, reads past the end of the memory.
pub qpop_split :
    (q : Queue) (n : ℕ) (d : Bytes)
    → IsValid q
    → is_frag q ≡ true
    → q.len - data_low q < n
    → n ≤ q.len
    → (q.len - data_low q ≤ n - (q.len - data_low q)
        → (d' : Bytes) × (qpop q n (some d)
            ≡ done (buffer, some d', record q { len = q.len - (n - (q.len - data_low q)) })))
      × (n - (q.len - data_low q) < q.len - data_low q → qpop q n (some d) ≡ fault)
unfolding qpop
qpop_split q n d v f l h =
    let high = q.len - data_low q in
    let rest = n - high in
    (
      λ p. (blit (blit d 0 q.bytes (q.max - rest) high) rest q.bytes 0 high, ground arith),
      λ p. ground arith,
    )
