-- ===== src/Message/Id/Tests.antt =====
-- Runs of the identifier's code, and its theorem at a concrete identifier.
use mpt_base.Prelude.{ℕ, ◌≡◌, ◌<◌, ◌≤◌, ◌^◌, refl, ok, err, missing_buffer, done, fault, none}
use mpt_base.Prelude.Int.{as_int}
use mpt_base.Prelude.Mem.{Bytes}
use mpt_base.Message.Id.{message_id2buf, message_buf2id, id_loop, value_loop}
use mpt_base.Message.Id.Laws.{message_id2buf_lem, be_value}

abbrev blank : Bytes
blank _ = 0

-- One byte of an identifier needs two bytes.
one_byte : (message_id2buf 5 blank 1).0 ≡ err missing_buffer
unfolding message_id2buf id_loop
one_byte = refl

two_bytes : (message_id2buf 5 blank 2).0 ≡ ok 1
unfolding message_id2buf id_loop
two_bytes = refl

message_id2buf_lem_example :
    (5 < 0x100 ^ 1
      → (used : ℕ) × (buf' : Bytes) × (message_id2buf 5 blank 2 ≡ (ok used, buf'))
        × (be_value buf' 2 ≡ 5)
        × (buf' 0 ≡ 0))
    × (0x100 ^ 1 ≤ 5 → (message_id2buf 5 blank 2).0 ≡ err missing_buffer)
message_id2buf_lem_example = message_id2buf_lem 5 1 blank

-- Of one byte, the loop reads the byte behind it; of two, it reads none.
read_one : message_buf2id blank 1 ≡ fault
unfolding message_buf2id value_loop
read_one = refl

read_two : message_buf2id (message_id2buf 5 blank 2).1 2 ≡ done (ok 0, none)
unfolding message_buf2id value_loop message_id2buf id_loop as_int
read_two = refl

read_first : message_buf2id (λ a. 1) 4 ≡ done (ok 1, none)
unfolding message_buf2id value_loop as_int
read_first = refl
