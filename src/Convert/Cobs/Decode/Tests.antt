-- ===== src/Convert/Cobs/Decode/Tests.antt =====
-- Runs of the decoder, and its theorems at concrete frames.
use mpt_base.Prelude.{
  ℕ, zero, suc, ◌+◌, ◌≤◌, ◌≡◌, refl, List, [], ◌∷◌, some, none, inl, length, arith, ok, err, Run,
  done, fault, false, Result, bad_value,
}
use mpt_base.Prelude.Mem.{Bytes}
use mpt_base.Prelude.Slice.{slice}
use mpt_base.Convert.Cobs.Message.{Delivered}
use mpt_base.Convert.Cobs.Reference.{cobs, uncobs, unblock}
use mpt_base.Convert.Cobs.Decode.{
  DecodeState, Decoded, Vec, regular, zero_pairs, decode_cobs, decode_loop, decode_from, seek,
  skip_vectors, align_target, data_bytes, data_byte, zero_bytes, put, fetch, read_code,
}
use mpt_base.Convert.Cobs.Decode.Whole.{Delivers}
use mpt_base.Convert.Cobs.Decode.Stream.{IsReady, decode_cobs_lem, decode_cobs-encode_cobs}
use mpt_base.Convert.Cobs.Decode.Ending.{Ends}
use mpt_base.Convert.Cobs.Decode.Safe.{decode_cobs-Ends}

abbrev byte_at : List ℕ → Bytes
byte_at [] a = 0
byte_at (x ∷ xs) zero = x
byte_at (x ∷ xs) (suc a) = byte_at xs a

-- The frame of the text 17, 0, 18 and its terminator.
abbrev frame : Bytes
frame = byte_at (2 ∷ 17 ∷ 2 ∷ 18 ∷ 0 ∷ [])

abbrev new_state : DecodeState
new_state = record { ctx = 0; curr = 0; pos = 0; len = 0; msg = none }

abbrev element : ℕ → Vec
element n = record { base = 0; len = n }

new_state-IsReady : IsReady new_state
new_state-IsReady = record { ctx = refl; msg = inl (refl, refl); order = omega arith }

frame_blocks : uncobs (2 ∷ 17 ∷ 2 ∷ 18 ∷ []) ≡ some (17 ∷ 0 ∷ 18 ∷ [])
unfolding uncobs unblock
frame_blocks = refl

decode_cobs_lem_example :
    (start : ℕ) × (0 ≤ start)
    × (start ≤ 0)
    × Delivers frame
        (0 + start)
        5
        0
        start
        (17 ∷ 0 ∷ 18 ∷ [])
        (decode_cobs regular 6 new_state (some (element 5 ∷ [])) 1 frame)
decode_cobs_lem_example =
    decode_cobs_lem 6 new_state (element 5) frame (2 ∷ 17 ∷ 2 ∷ 18 ∷ []) (17 ∷ 0 ∷ 18 ∷ [])
      new_state-IsReady refl (omega arith, (omega arith, (omega arith, (omega arith, tt))))
      frame_blocks (omega arith) (omega arith)

decode_cobs-encode_cobs_example :
    (sent : Delivered frame 0 9 (17 ∷ 0 ∷ 18 ∷ [])) × (start : ℕ) × (0 ≤ start)
    × (start ≤ 0)
    × Delivers sent.f.mem start
        (0 + length (cobs [] (17 ∷ 0 ∷ 18 ∷ [])) + 1)
        0
        start
        (17 ∷ 0 ∷ 18 ∷ [])
        (decode_cobs regular 9 new_state (some (element 9 ∷ [])) 1 sent.f.mem)
decode_cobs-encode_cobs_example =
    decode_cobs-encode_cobs 9 new_state frame 9 17 (0 ∷ 18 ∷ []) new_state-IsReady
      (omega arith, (omega arith, (omega arith, tt))) (unfold cobs in omega arith)
      (unfold cobs in omega arith)

decode_cobs-Ends_example :
    Ends frame 0 5 5 (decode_cobs zero_pairs 6 new_state (some (element 5 ∷ [])) 1 frame)
decode_cobs-Ends_example =
    decode_cobs-Ends zero_pairs 6 5 false new_state (element 5) frame (omega arith) (omega arith)
      (omega arith) (omega arith) (omega arith)

-- What is left of a call: its result, and the first bytes of the element.
abbrev outcome : Run Decoded → (Result ℕ × List ℕ)
outcome (done e) = (e.result, slice e.mem 0 3)
outcome fault = (err bad_value, [])

decode_run :
    outcome (decode_cobs regular 6 new_state (some (element 5 ∷ [])) 1 frame)
    ≡ (ok 1, 17 ∷ 0 ∷ 18 ∷ [])
unfolding decode_cobs decode_from decode_loop seek skip_vectors align_target data_bytes data_byte
    zero_bytes put fetch read_code
decode_run = refl

-- A frame with its end missing is data of a message that goes on.
partial_run :
    outcome (decode_cobs regular 6 new_state (some (element 4 ∷ [])) 1 frame)
    ≡ (ok 0, 17 ∷ 0 ∷ 18 ∷ [])
unfolding decode_cobs decode_from decode_loop seek skip_vectors align_target data_bytes data_byte
    zero_bytes put fetch read_code
partial_run = refl
