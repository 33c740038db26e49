-- ===== src/Queue/Align.antt =====
-- Moving the data within the memory and changing its size: mptcore/queue/queue_align.c and
-- queue_resize.c.
pub mod Laws
pub mod Resize
use mpt_base.Prelude.{
  ℕ, ◌+◌, ◌-◌, ◌*◌, ◌/◌, ◌%◌, ◌^◌, Bool, true, false, not, ◌&&◌, Option, none, some, ◌==◌, ltb, leb,
  if◌then◌else◌, Result, ok, err, Run, done, fault, ◌>>=◌,
}
use mpt_base.Prelude.Mem.{Bytes, memmove, sub_size}
use mpt_base.Memory.Rotate.{memrev}
use mpt_base.Queue.{Queue, is_frag, crop_front}

-- `memmove` behind `if (n)`, and `mpt_memrev` in the queue's memory, whose result the code drops.
abbrev pub move_if : Queue → (dst src n : ℕ) → Run Bytes
move_if q dst src n = if n == 0 then done q.bytes else memmove q.max q.bytes dst src n

unfoldable pub reverse_in : Queue → (at pre len : ℕ) → Run Queue
reverse_in q at pre len =
    if leb (at + len) q.max
    then (memrev q.bytes at pre len >>= λ (_, m). done (record q { bytes = m }))
    else fault

-- The move of the first segment over the gap to the end of the second one.
unfoldable pub close_gap : Queue → Run Bytes
close_gap q =
    let space = sub_size q.max q.len in
    if space == 0
    then done q.bytes
    else memmove q.max q.bytes (q.off - space) q.off (sub_size q.max q.off)

-- Data that wraps, made one block at the start of the memory.
unfoldable pub align_wrapped : Queue → Run Queue
align_wrapped q = do
  m ← close_gap q
  let pre = q.off - sub_size q.max q.len
  q' ← reverse_in (record q { bytes = m; off = pre }) 0 pre q.len
  done (record q' { off = 0 })

-- One block of data, moved to `pos`; where it would pass the end of the memory, it is split, and the
-- offset is left as it was.
unfoldable pub align_block : Queue → ℕ → Run Queue
align_block q pos =
    if leb pos (sub_size q.max q.len)
    then (do m ← memmove q.max q.bytes pos q.off q.len; done (record q { bytes = m; off = pos }))
    else (let part = sub_size pos q.off in
        do
          q' ← reverse_in q q.off part q.len
          m ← if q'.off == 0 then done q'.bytes else memmove q'.max q'.bytes 0 q'.off part
          let rest = sub_size q'.len part
          let to = sub_size q'.max rest
          m' ← if to == q'.off + part then done m else memmove q'.max m to (q'.off + part) rest
          done (record q' { bytes = m' }))

-- `mpt_queue_align`
unfoldable pub queue_align : Queue → ℕ → Run Queue
queue_align q pos =
    if ltb q.max pos
    then done q
    else if q.len == 0
    then done (record q { off = 0 })
    else if not q.mapped
    then done q
    else if is_frag q
    then (do q' ← align_wrapped q; if pos == 0 then done q' else align_block q' pos)
    else if pos == q.off
    then done q
    else align_block q pos

-- `mpt_queue_resize`: the answer says whether the result is a null pointer; `alloc` tells whether
-- `realloc` has the memory for a size.
abbrev regrow : (ℕ → Bool) → ℕ → Queue → Run (Bool × Queue)
regrow alloc len q =
    if alloc len then done (true, record q { max = len; mapped = true }) else done (false, q)

unfoldable pub queue_resize : (ℕ → Bool) → Queue → ℕ → Run (Bool × Queue)
queue_resize alloc q len =
    if len == 0
    then done (false, record q { mapped = false; len = 0; off = 0; max = 0 })
    else if ltb len q.max
    then (let q₁ = if ltb len q.len then (crop_front q (q.len - len)).1 else q in
        queue_align q₁ 0 >>= regrow alloc len)
    else if ltb q.max len
    then (if is_frag q then queue_align q 0 >>= regrow alloc len else regrow alloc len q)
    else done (q.mapped, q)

-- `MPT_align`: the next multiple of the size of a pointer, in `size_t`.
abbrev pub align_size : ℕ → ℕ
align_size x = (x + 7 + (2 ^ 64 - (x + 2 ^ 64 - 1) % 8)) % 2 ^ 64

-- `mpt_queue_prepare`: the space that is there then, or 0.
unfoldable pub queue_prepare : (ℕ → Bool) → Queue → ℕ → Run (ℕ × Queue)
queue_prepare alloc q len =
    let left = sub_size q.max q.len in
    if leb len left
    then done (left, q)
    else if ltb (2 ^ 64 - 1 - left) len
    then done (0, q)
    else (do
      (done_, q') ← queue_resize alloc q (align_size ((len - left + q.max) % 2 ^ 64))
      done (if done_ then (sub_size q'.max q'.len, q') else (0, q')))
