-- ===== src/Queue/Receive/Tests.antt =====
-- Queues that hold a frame of the COBS encoding.
use mpt_base.Prelude.{
  ℕ, zero, suc, ◌≡◌, refl, List, [], ◌∷◌, Option, some, none, Result, ok, err, bad_encoding, Run,
  done, fault, true,
}
use mpt_base.Prelude.Mem.{Bytes}
use mpt_base.Queue.{Queue}
use mpt_base.Queue.Receive.{DecodeQueue, queue_recv, queue_shift, receive_plain}
use mpt_base.Convert.Cobs.Decode.{DecodeState}

abbrev byte_at : List ℕ → Bytes
byte_at [] a = 0
byte_at (x ∷ xs) zero = x
byte_at (x ∷ xs) (suc a) = byte_at xs a

-- The frame of the text 17, 0, 18 behind one free byte.
abbrev frame_queue : Queue
frame_queue = record {
  bytes = byte_at (9 ∷ 2 ∷ 17 ∷ 2 ∷ 18 ∷ 0 ∷ []);
  mapped = true;
  len = 5;
  max = 8;
  off = 1;
}

abbrev new_state : DecodeState
new_state = record { ctx = 0; curr = 0; pos = 0; len = 0; msg = none }

-- A queue with no decoder: its data is the message, and with a message it is behind that.
abbrev plain_queue : DecodeState → DecodeQueue
plain_queue s = record { buffer = frame_queue; state = s; dec = none }

abbrev left_over : Run (Result ℕ × DecodeQueue) → Option (Result ℕ × (ℕ × ℕ))
left_over (done (r, qu)) = some (r, (qu.buffer.len, qu.state.len))
left_over fault = none

plain_start : left_over (queue_recv (plain_queue new_state)) ≡ some (ok 0, (5, 5))
unfolding queue_recv receive_plain queue_shift
plain_start = refl

plain_range :
    left_over (queue_recv (plain_queue (record new_state { pos = 6 })))
    ≡ some (err bad_encoding, (5, 0))
unfolding queue_recv receive_plain queue_shift
plain_range = refl
