-- ===== src/Queue.antt =====
-- The byte queue of mptcore/queue.h: a ring buffer over one block of memory, its segments
-- (mptcore/queue/queue_data.c, queue_empty.c), and queue_crop.c, queue_get.c and queue_set.c.
-- The children hold the other operations and the proofs.
pub mod Access
pub mod Align
pub mod Crop
pub mod GetSet
pub mod Push
pub mod Take
pub mod Receive
mod Tests
pub mod Contents
pub mod Ends
use mpt_base.Prelude.{
  ℕ, ◌+◌, ◌-◌, Bool, true, false, not, ◌&&◌, Option, none, some, ◌==◌, ltb, leb, if◌then◌else◌,
  Result, ok, err, bad_argument, missing_buffer, Run, done, fault, ◌>>=◌,
}
use mpt_base.Prelude.Mem.{Bytes, memmove, memcpy, copy_in, copy_out, sub_size}

-- `MPT_STRUCT(queue)`: `bytes` is the memory that `base` points to, at addresses below `max`;
-- `mapped` says that `base` is no null pointer.
pub record Queue : Type 0 where
  pub bytes : Bytes
  pub mapped : Bool
  pub len : ℕ
  pub max : ℕ
  pub off : ℕ

-- `MPT_queue_frag`
abbrev pub is_frag : Queue → Bool
is_frag q = ltb (sub_size q.max q.len) q.off

-- What `mpt_queue_data` leaves in `*low`: the size of the first data segment.
abbrev pub data_low : Queue → ℕ
data_low q = let start = sub_size q.max q.off in if ltb start q.len then start else q.len

-- The address that it returns: none for data in two parts, if the caller passes no `low`.
unfoldable pub queue_data : Queue → Bool → Option ℕ
queue_data q with_low =
    if ltb (sub_size q.max q.off) q.len && not with_low then none else some q.off

-- `mpt_queue_empty`: address and size of the first unused segment, and the size of the second one,
-- which starts at `base`.
pub record Space : Type 0 where
  pub start : ℕ
  pub low : ℕ
  pub high : ℕ

unfoldable pub queue_empty : Queue → Option Space
queue_empty q =
    let space = sub_size q.max q.len in
    if space == 0
    then none
    else if leb space q.off
    then (let add = sub_size q.max q.off in
        some (record { start = if add == 0 then q.len else q.len - add; low = space; high = 0 }))
    else some (record { start = q.off + q.len; low = space - q.off; high = q.off })

-- The move of the data behind a cut whose first byte is at address `base`, in the first segment,
-- with `low` bytes from there to the end of the memory and data in the second segment too.
unfoldable pub crop_split : Queue → (base low post len : ℕ) → Run (Bytes × ℕ)
crop_split q base low post len =
    if ltb len low
    then fault
    else if leb low post
    then (do m ← memcpy q.max q.bytes base (len - low) post; done (m, 1))
    else (do
      m ← memcpy q.max q.bytes base (len - low) low
      m' ← memmove q.max m 0 len (sub_size post low)
      done (m', 3))

-- The cut past the start of the queue.
unfoldable pub crop_inner : Queue → (base low high len : ℕ) → Run (Result ℕ × Queue)
unfolding crop_split
crop_inner q base low high len =
    if ltb (low + high) len
    then done (err bad_argument, q)
    else (let post = low + high - len in
        if not (high == 0)
        then (do
          (m, ret) ← crop_split q base low post len
          done (ok ret, record q { bytes = m; len = q.len - len }))
        else if not (post == 0)
        then (do
          m ← memmove q.max q.bytes base (base + len) post
          done (ok 0, record q { bytes = m; len = q.len - len }))
        else done (ok 0, record q { len = q.len - len }))

-- The cut at the start of the queue, which moves no data.
unfoldable pub crop_front : Queue → ℕ → Result ℕ × Queue
crop_front q len =
    let low = data_low q in
    if ltb q.len len
    then (err bad_argument, q)
    else if leb low len
    then (ok (if len - low == 0 then 0 else 2), record q { len = q.len - len; off = len - low })
    else (ok 0, record q { len = q.len - len; off = q.off + len })

-- `mpt_queue_crop`
unfoldable pub queue_crop : Queue → (pos len : ℕ) → Run (Result ℕ × Queue)
queue_crop q pos len =
    let low = data_low q in
    let high = q.len - low in
    if pos == 0
    then done (crop_front q len)
    else if ltb pos low
    then crop_inner q (q.off + pos) (low - pos) high len
    else if ltb high (pos - low)
    then done (err bad_argument, q)
    else crop_inner q (pos - low) (high - (pos - low)) 0 len

-- The prefix of `mpt_queue_get` and `mpt_queue_set`: the queue less its first `pos` bytes, and the
-- flag for a position in the second segment. `none` is a position out of range.
abbrev skip_flag : ℕ → Result ℕ × Queue → Option (Queue × ℕ)
skip_flag flag (ok _, q) = some (q, flag)
skip_flag flag (err _, q) = none

unfoldable pub skip : Queue → ℕ → Option (Queue × ℕ)
unfolding crop_front
skip q pos =
    if pos == 0
    then some (q, 0)
    else skip_flag (if ltb (sub_size q.max q.off) pos then 1 else 0) (crop_front q pos)

-- The two copies out of the first `len` bytes of a queue.
unfoldable pub read_parts : Queue → ℕ → Bytes → Run Bytes
read_parts q len d =
    let low = data_low (record q { len = len }) in
    let high = len - low in
    do
      d' ← if low == 0 then done d else copy_out q.max q.bytes q.off d 0 low
      if high == 0 then done d' else copy_out q.max q.bytes 0 d' low high

-- `mpt_queue_get`: the bytes go to `dest`, if there is one.
abbrev get_from : Option (Queue × ℕ) → ℕ → Option Bytes → Run (Result ℕ × Option Bytes)
get_from none len dest = done (err bad_argument, dest)
get_from (some (q, flag)) len dest =
    if ltb q.len len
    then done (err bad_argument, dest)
    else (let ret = if len - data_low (record q { len = len }) == 0 then flag else flag + 2 in
        elim dest [
          | none ↦ done (ok ret, none)
          | some d ↦ (do d' ← read_parts q len d; done (ok ret, some d'))
        ])

unfoldable pub queue_get : Queue → (pos len : ℕ) → Option Bytes → Run (Result ℕ × Option Bytes)
queue_get q pos len dest = if len == 0 then done (ok 0, dest) else get_from (skip q pos) len dest

-- The bytes that a write takes from the caller's data: zeros, if there is none.
abbrev pub source : Option Bytes → Bytes
source none = λ _. 0
source (some d) = d

-- The two copies into the first `len` bytes of a queue.
unfoldable pub write_parts : Queue → ℕ → Option Bytes → Run Bytes
write_parts q len d =
    let low = data_low (record q { len = len }) in
    let high = len - low in
    do
      m ← if low == 0 then done q.bytes else copy_in q.max q.bytes q.off (source d) 0 low
      if high == 0 then done m else copy_in q.max m 0 (source d) low high

abbrev set_from : Queue → Option (Queue × ℕ) → ℕ → Option Bytes → Run (Result ℕ × Queue)
set_from q none len d = done (err bad_argument, q)
set_from q (some (q', flag)) len d =
    if ltb q'.len len
    then done (err missing_buffer, q)
    else (let ret = if len - data_low (record q' { len = len }) == 0 then flag else flag + 2 in
        do m ← write_parts q' len d; done (ok ret, record q { bytes = m }))

-- `mpt_queue_set`
unfoldable pub queue_set : Queue → (pos len : ℕ) → Option Bytes → Run (Result ℕ × Queue)
queue_set q pos len d = if len == 0 then done (ok 0, q) else set_from q (skip q pos) len d
