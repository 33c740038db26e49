-- ===== src/Queue/Receive.antt =====
-- Queues that decode what they hold: mptcore/queue/queue_recv.c and queue_shift.c. The decoder is a
-- parameter, the function of the queue's `_dec`; the addresses that it gets count from the queue's
-- memory on, which is aligned as that of the allocator.
pub mod Shift
pub mod Frames
mod Tests
use mpt_base.Prelude.{
  ℕ, ◌+◌, ◌-◌, Bool, true, false, not, ◌&&◌, ◌||◌, Option, none, some, ◌==◌, ltb, leb,
  if◌then◌else◌, List, [], ◌∷◌, length, Result, ok, err, bad_argument, bad_encoding, missing_buffer,
  missing_data, Run, done, fault, ◌>>=◌,
}
use mpt_base.Prelude.Mem.{Bytes}
use mpt_base.Queue.{Queue, queue_crop}
use mpt_base.Queue.Ends.{qpre}
use mpt_base.Convert.Cobs.Decode.{DecodeState, Decoded, Vec}

-- `MPT_TYPE(data_decoder)`, on elements of one memory.
abbrev pub DataDecoder : Type 0
DataDecoder = DecodeState → Option (List Vec) → (sourcelen : ℕ) → Bytes → Run Decoded

-- `MPT_STRUCT(decode_queue)`
pub record DecodeQueue : Type 0 where
  pub buffer : Queue
  pub state : DecodeState
  pub dec : Option DataDecoder

-- `vectorSet`
abbrev pub vector_set : Queue → List Vec
vector_set q =
    if ltb q.max (q.off + q.len)
    then record { base = q.off; len = q.max - q.off }
      ∷ (record { base = 0; len = q.len - (q.max - q.off) } ∷ [])
    else record { base = q.off; len = q.len } ∷ []

-- How many bytes `mpt_queue_shift` takes off, and the position of the data behind that.
abbrev pub shift_size : DecodeState → ℕ
shift_size s =
    if s.pos == 0 && s.len == 0 then s.curr else if ltb s.pos s.curr then s.pos else s.curr

abbrev pub shift_pos : DecodeState → ℕ
shift_pos s = if s.pos == 0 && s.len == 0 then 0 else if ltb s.pos s.curr then 0 else s.pos - s.curr

abbrev pub cropped : DecodeQueue → (Result ℕ × Queue) → DecodeQueue
cropped qu (err e, q) = record qu { buffer = q }
cropped qu (ok r, q) = record qu {
  buffer = q;
  state = record qu.state { curr = qu.state.curr - shift_size qu.state; pos = shift_pos qu.state };
}

-- `mpt_queue_shift`
unfoldable pub queue_shift : DecodeQueue → Run DecodeQueue
queue_shift qu =
    if qu.state.curr == 0
    then done qu
    else if shift_size qu.state == 0
    then done qu
    else queue_crop qu.buffer 0 (shift_size qu.state) >>= λ r. done (cropped qu r)

-- What is left of the queue behind a call of the decoder.
abbrev pub with_decoded : DecodeQueue → Decoded → DecodeQueue
with_decoded qu e = record qu { buffer = record qu.buffer { bytes = e.mem }; state = e.state }

abbrev pub has_message : Option ℕ → ℕ
has_message none = 0
has_message (some n) = 1

abbrev pub finish_receive : DecodeQueue → Run (Result ℕ × DecodeQueue)
finish_receive qu = queue_shift qu >>= λ qu'. done (ok (has_message qu'.state.msg), qu')

-- The queue with no decoder: all of its data behind the last message is the next one.
unfoldable pub receive_plain : DecodeQueue → Run (Result ℕ × DecodeQueue)
receive_plain qu =
    let s = qu.state in
    elim s.msg [
      | none ↦
          (let end = s.pos + s.len in
            if ltb qu.buffer.len end
            then done (err bad_encoding, qu)
            else queue_shift
                (record qu { state = record s { pos = end; len = qu.buffer.len - end } })
              >>= λ qu'. done (ok 0, qu'))
      | some n ↦
          (let end = s.pos + n in
            if ltb qu.buffer.len end
            then done (err bad_encoding, qu)
            else queue_shift (record qu {
              state = record s { pos = end; len = qu.buffer.len - end; msg = some s.len };
            })
              >>= λ qu'. done (ok 1, qu'))
    ]

-- The second call of the decoder, with all of the free memory in front of the data.
abbrev retried :
    DataDecoder → (max : ℕ) → DecodeQueue → (Result ℕ × Queue) → Run (Result ℕ × DecodeQueue)
retried dec max qu (err e, q) = done (err missing_buffer, record qu { buffer = q })
retried dec max qu (ok r, q) =
    let s = record qu.state { pos = qu.state.pos + max; curr = qu.state.curr + max } in
    let qu' = record qu { buffer = q; state = s } in
    dec s (some (vector_set q)) (length (vector_set q)) q.bytes >>= λ e. elim e.result [
      | err c ↦ done (err c, with_decoded qu' e)
      | ok n ↦ finish_receive (with_decoded qu' e)
    ]

abbrev retry : DataDecoder → DecodeQueue → Run (Result ℕ × DecodeQueue)
retry dec qu =
    let max = qu.buffer.max - qu.buffer.len in
    if leb qu.buffer.max qu.buffer.len
    then done (err missing_buffer, qu)
    else qpre qu.buffer max >>= λ r. retried dec max qu r

-- What follows the first call of the decoder.
abbrev pub received : DataDecoder → DecodeQueue → Result ℕ → Run (Result ℕ × DecodeQueue)
received dec qu (ok n) = finish_receive qu
received dec qu (err missing_buffer) = retry dec qu
received dec qu (err c) = done (err c, qu)

-- `mpt_queue_recv`
unfoldable pub queue_recv : DecodeQueue → Run (Result ℕ × DecodeQueue)
queue_recv qu =
    let src = vector_set qu.buffer in
    if qu.buffer.len == 0 then done (err missing_data, qu) else elim qu.dec [
      | none ↦ receive_plain qu
      | some dec ↦ dec qu.state (some src) (length src) qu.buffer.bytes >>= λ e.
          received dec (with_decoded qu e) e.result
    ]
