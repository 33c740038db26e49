-- ===== src/Queue/Contents.antt =====
-- The sequence of bytes that a queue stands for, and the invariant of its fields.
use mpt_base.Prelude.{ℕ, ◌+◌, ◌-◌, ◌<◌, ◌≤◌, ◌^◌, ◌≡◌, ltb, if◌then◌else◌, arith}
use mpt_base.Queue.{Queue, crop_front}

-- The memory is addressed by a `size_t`, and data and offset lie inside of it.
pub record IsValid (q : Queue) : Type 0 where
  pub small : q.max < 2 ^ 63
  pub off_in : q.off ≤ q.max
  pub len_in : q.len ≤ q.max

-- The address of byte `i` of the queue, and the byte.
abbrev pub address : Queue → ℕ → ℕ
address q i = if ltb (q.off + i) q.max then q.off + i else q.off + i - q.max

abbrev pub at : Queue → ℕ → ℕ
at q i = q.bytes (address q i)

-- A shift of the start: the rest is kept in order.
pub crop_front-IsValid : {q : Queue} (n : ℕ) → IsValid q → IsValid (crop_front q n).1
unfolding crop_front
crop_front-IsValid n v = ground arith

pub crop_front-ok :
    (q : Queue) (n : ℕ)
    → IsValid q
    → n ≤ q.len
    → ((crop_front q n).1.len ≡ q.len - n)
      × ((crop_front q n).1.bytes ≡ q.bytes)
      × ((crop_front q n).1.max ≡ q.max)
unfolding crop_front
crop_front-ok q n v h = ground arith

pub crop_front-at :
    (q : Queue) (n i : ℕ)
    → IsValid q
    → n + i < q.len
    → address (crop_front q n).1 i ≡ address q (n + i)
unfolding crop_front
crop_front-at q n i v h = ground arith
