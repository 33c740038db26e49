-- ===== src/Message/Id.antt =====
-- mptcore/message/message_id.c: a message identifier as bytes, highest first.
pub mod Laws
mod Tests
use Prim.Native.Nat.{bit_and}
use mpt_base.Prelude.{
  ℕ, zero, suc, ◌+◌, ◌*◌, ◌/◌, ◌%◌, ◌^◌, ◌==◌, not, ltb, if◌then◌else◌, Bool, Option, some, none,
  ◌&&◌, leb, Result, ok, err, missing_buffer, bad_value, Run, done, fault,
}
use mpt_base.Prelude.Int.{as_int}
use mpt_base.Prelude.Mem.{Bytes, update, sub_size}

-- The loop of `mpt_message_id2buf`, over the bytes below index `k`.
pub record Encoded : Type 0 where
  pub id : ℕ
  pub used : ℕ
  pub buf : Bytes

unfoldable pub id_loop : ℕ → Encoded → Encoded
id_loop zero s = s
id_loop (suc k) s =
    let id = s.id / 0x100 in
    id_loop k (record {
      id = id;
      used = if id == 0 then s.used else s.used + 1;
      buf = update s.buf k (id % 0x100);
    })

abbrev id_result : Encoded → Result ℕ × Bytes
id_result s =
    if not (s.id == 0)
    then (err missing_buffer, s.buf)
    else if not (bit_and (s.buf 0) 0x80 == 0)
    then (err bad_value, s.buf)
    else (ok s.used, s.buf)

-- `mpt_message_id2buf`
unfoldable pub message_id2buf : ℕ → Bytes → ℕ → Result ℕ × Bytes
message_id2buf id buf zero = (if id == 0 then ok 0 else err missing_buffer, buf)
message_id2buf id buf (suc k) =
    id_result (id_loop k (record { id = id; used = 1; buf = update buf k (id % 0x100) }))

-- `while (!--len)` of `mpt_message_buf2id`, for a buffer of `size` bytes: the next byte is read at
-- `pos`, and a read behind the buffer is a fault.
unfoldable pub value_loop :
    (fuel : ℕ) → Bytes → (size pos len id used : ℕ) → Run (Result ℕ × Option ℕ)
value_loop zero buf size pos len id used = fault
value_loop (suc fuel) buf size pos len id used =
    let left = sub_size len 1 in
    let val = buf pos in
    let id' = id * 0x100 % 2 ^ 64 + val in
    let more = value_loop fuel buf size (pos + 1) left id' (used + 1) in
    let same = value_loop fuel buf size (pos + 1) left id' used in
    if not (left == 0)
    then done (as_int used, none)
    else if leb size pos
    then fault
    else if val == 0 && used == 0
    then same
    else if ltb 8 (used + 1)
    then done (err bad_value, none)
    else more

-- `mpt_message_buf2id`: the result, and what is written to `*iptr`, if anything.
unfoldable pub message_buf2id : Bytes → ℕ → Run (Result ℕ × Option ℕ)
message_buf2id buf zero = done (ok 0, some 0)
message_buf2id buf (suc k) =
    value_loop 2 buf (suc k) 1 (suc k) (buf 0) (if buf 0 == 0 then 0 else 1)
