-- ===== src/Queue/Tests.antt =====
-- Runs of the queue's operations, and its theorems at concrete queues.
use mpt_base.Prelude.{
  ℕ, ◌+◌, ◌<◌, ◌≤◌, ◌≡◌, refl, Bool, true, some, Result, ok, err, Run, done, fault, arith, inl, inr,
  ltb, if◌then◌else◌, ◌*◌, ◌-◌, ◌^◌, ◌⊎◌, negative,
}
use mpt_base.Prelude.Int.{as_int}
use mpt_base.Prelude.Mem.{Bytes}
use mpt_base.Queue.{
  Queue, queue_set, queue_crop, crop_front, queue_empty, skip, write_parts, crop_inner,
}
use mpt_base.Queue.Ends.{Taken, qpush, qunshift, qshift, qpost, qpre}
use mpt_base.Queue.Contents.{IsValid, at}
use mpt_base.Queue.Push.{qpush-ok, qunshift-ok, Appends, Prepends, int_count, pre_start}
use mpt_base.Queue.Take.{qshift-ok, Drops}
use mpt_base.Queue.Crop.{queue_crop-ok, Cuts}
use mpt_base.Queue.Align.{queue_align, queue_resize, queue_prepare}
use mpt_base.Queue.Align.Laws.{queue_align-ok, Aligned}
use mpt_base.Queue.Align.Resize.{queue_resize-ok, Resized, queue_prepare-ok}

-- Memory that holds 10, 11, 12, …, and queues over five bytes of it.
abbrev ramp : Bytes
ramp a = a + 10

abbrev over : (off len : ℕ) → Queue
over off len = record { bytes = ramp; mapped = true; len = len; max = 5; off = off }

-- The bytes 14, 10, 11; the bytes 11, 12, 13; the bytes 13, 14, 10, 11.
abbrev wrapped : Queue
wrapped = over 4 3

abbrev line : Queue
line = over 1 3

abbrev long : Queue
long = over 3 4

wrapped-IsValid : IsValid wrapped
wrapped-IsValid = omega arith

line-IsValid : IsValid line
line-IsValid = omega arith

long-IsValid : IsValid long
long-IsValid = omega arith

abbrev ones : Bytes
ones _ = 1

abbrev bytes_of : Run (Result ℕ × Queue) → ℕ → ℕ → ℕ → ℕ
bytes_of (done (ok _, q)) i j k = at q i * 10000 + at q j * 100 + at q k
bytes_of (done (err _, q)) i j k = 0
bytes_of fault i j k = 0

push_runs : bytes_of (qpush wrapped 2 (some ones)) 0 2 4 ≡ 141101
unfolding qpush qpost queue_empty queue_set skip write_parts crop_front as_int
push_runs = refl

unshift_runs : bytes_of (qunshift line 2 (some ones)) 0 2 4 ≡ 11113
unfolding qunshift qpre queue_empty queue_set skip write_parts crop_front as_int
unshift_runs = refl

crop_runs : bytes_of (queue_crop line 1 1) 0 1 0 ≡ 111311
unfolding queue_crop crop_inner crop_front
crop_runs = refl

-- With 2^31 free bytes left the count is negative.
abbrev large : Queue
large = record { bytes = λ a. 0; mapped = true; len = 0; max = 2 ^ 31 + 1; off = 0 }

push_negative : qpush large 1 (some ones) ≡ done (err (negative (2 ^ 31)), record large { len = 1 })
unfolding qpush qpost queue_empty as_int
push_negative = refl

qpush-ok_example :
    ((int_count wrapped 2 < 2 ^ 31)
      × ((r : ℕ) × (q' : Queue) × (qpush wrapped 2 (some ones) ≡ done (ok r, q'))
          × Appends wrapped 2 ones q'))
    ⊎ ((2 ^ 31 ≤ int_count wrapped 2)
        × (qpush wrapped 2 (some ones)
            ≡ done (
              err (negative (2 ^ 32 - int_count wrapped 2)),
              record wrapped { len = wrapped.len + 2 },
            )))
qpush-ok_example = qpush-ok wrapped 2 (some ones) wrapped-IsValid (omega arith) (omega arith)

qunshift-ok_example :
    ((int_count line 2 < 2 ^ 31)
      × ((r : ℕ) × (q' : Queue) × (qunshift line 2 (some ones) ≡ done (ok r, q'))
          × Prepends line 2 ones q'))
    ⊎ ((2 ^ 31 ≤ int_count line 2)
        × (qunshift line 2 (some ones)
            ≡ done (
              err (negative (2 ^ 32 - int_count line 2)),
              record line { len = line.len + 2; off = pre_start line 2 },
            )))
qunshift-ok_example = qunshift-ok line 2 (some ones) line-IsValid (omega arith) (omega arith)

qshift-ok_example :
    (t : Taken) × (d' : Bytes) × (q' : Queue) × (qshift wrapped 2 (some ones)
      ≡ done (t, some d', q'))
    × ((i : ℕ) → d' i ≡ (if ltb i 2 then at wrapped i else 1))
    × Drops wrapped 2 q'
qshift-ok_example = qshift-ok wrapped 2 ones wrapped-IsValid (omega arith)

queue_crop-ok_example :
    (r : ℕ) × (q' : Queue) × (queue_crop line 1 1 ≡ done (ok r, q')) × Cuts line 1 1 q'
queue_crop-ok_example = queue_crop-ok line 1 1 line-IsValid (omega arith) (inr (inl refl))

queue_align-ok_example : Aligned (queue_align wrapped 1) wrapped 1
queue_align-ok_example = queue_align-ok wrapped 1 wrapped-IsValid refl (omega arith) (omega arith)

abbrev plenty : ℕ → Bool
plenty _ = true

queue_resize-ok_example :
    (q' : Queue) × (queue_resize plenty wrapped 2 ≡ done (true, q')) × Resized wrapped 2 q'
queue_resize-ok_example =
    queue_resize-ok plenty wrapped 2 wrapped-IsValid refl (omega arith) (omega arith) refl

queue_prepare-ok_example :
    (left : ℕ) × (q' : Queue) × (queue_prepare plenty wrapped 9 ≡ done (left, q'))
    × (9 ≤ left)
    × (q'.len + left ≡ q'.max)
    × (q'.len ≡ 3)
    × ((i : ℕ) → i < 3 → at q' i ≡ at wrapped i)
queue_prepare-ok_example =
    queue_prepare-ok plenty wrapped 9 wrapped-IsValid refl (λ _. refl) (omega arith) (omega arith)
