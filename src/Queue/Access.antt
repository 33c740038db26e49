-- ===== src/Queue/Access.antt =====
-- `mpt_queue_get` and `mpt_queue_set` against the sequence of bytes.
use mpt_base.Prelude.{
  ℕ, ◌+◌, ◌-◌, ◌<◌, ◌≤◌, ◌≡◌, ◌==◌, ltb, if◌then◌else◌, arith, done, some, none, Option,
}
use mpt_base.Prelude.Mem.{Bytes, blit}
use mpt_base.Queue.{Queue, data_low, crop_front, skip, source, write_parts, read_parts}
use mpt_base.Queue.Contents.{IsValid, address, at}

-- The memory after both copies of `write_parts`.
abbrev pub written : Queue → ℕ → Bytes → Bytes
written q n d =
    let low = data_low (record q { len = n }) in
    let m = if low == 0 then q.bytes else blit q.bytes q.off d 0 low in
    if n - low == 0 then m else blit m 0 d low (n - low)

pub write_parts-done :
    (q : Queue) (n : ℕ) (d : Option Bytes)
    → IsValid q
    → n ≤ q.max
    → write_parts q n d ≡ done (written q n (source d))
unfolding write_parts
write_parts-done q n d v h = ground arith

pub written-address :
    (q : Queue) (n i : ℕ) (d : Bytes)
    → IsValid q
    → n ≤ q.max
    → i < q.max
    → written q n d (address q i) ≡ (if ltb i n then d i else at q i)
written-address q n i d v h l = ground arith

abbrev pub fetched : Queue → ℕ → Bytes → Bytes
fetched q n d =
    let low = data_low (record q { len = n }) in
    let m = if low == 0 then d else blit d 0 q.bytes q.off low in
    if n - low == 0 then m else blit m low q.bytes 0 (n - low)

pub read_parts-done :
    (q : Queue) (n : ℕ) (d : Bytes)
    → IsValid q
    → n ≤ q.max
    → read_parts q n d ≡ done (fetched q n d)
unfolding read_parts
read_parts-done q n d v h = ground arith

pub fetched-at :
    (q : Queue) (n i : ℕ) (d : Bytes)
    → IsValid q
    → n ≤ q.max
    → fetched q n d i ≡ (if ltb i n then at q i else d i)
fetched-at q n i d v h = ground arith

-- The queue less its first `pos` bytes, as the code forms it.
abbrev pub advanced : Queue → ℕ → Queue
advanced q pos = if pos == 0 then q else (crop_front q pos).1

pub advanced-ok :
    (q : Queue) (pos : ℕ)
    → IsValid q
    → pos ≤ q.len
    → IsValid (advanced q pos)
      × ((advanced q pos).len ≡ q.len - pos)
      × ((advanced q pos).bytes ≡ q.bytes)
      × ((advanced q pos).max ≡ q.max)
unfolding crop_front
advanced-ok q pos v h = ground arith

pub advanced-address :
    (q : Queue) (pos i : ℕ)
    → IsValid q
    → pos + i < q.len
    → address (advanced q pos) i ≡ address q (pos + i)
unfolding crop_front
advanced-address q pos i v h = ground arith

-- The bytes before the position follow, one turn of the ring later.
pub advanced-address_before :
    (q : Queue) (pos i : ℕ)
    → IsValid q
    → pos < q.len
    → i < pos
    → address (advanced q pos) (i + (q.max - pos)) ≡ address q i
unfolding crop_front
advanced-address_before q pos i v h l = ground arith

pub skip-some :
    (q : Queue) (pos : ℕ)
    → IsValid q
    → pos ≤ q.len
    → (flag : ℕ) × (skip q pos ≡ some (advanced q pos, flag))
unfolding skip
skip-some q pos v h =
    (if pos == 0 then 0 else if ltb (q.max - q.off) pos then 1 else 0, ground arith)

pub skip-none : (q : Queue) (pos : ℕ) → IsValid q → q.len < pos → skip q pos ≡ none
unfolding skip crop_front
skip-none q pos v h = ground arith
