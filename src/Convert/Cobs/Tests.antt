-- ===== src/Convert/Cobs/Tests.antt =====
-- Runs of the encoder, and its theorems at concrete messages.
use mpt_base.Prelude.{
  ℕ, ◌+◌, ◌<◌, ◌≡◌, refl, List, [], ◌∷◌, some, arith, err, Run, done, fault, missing_buffer,
  replicate,
}
use mpt_base.Prelude.Mem.{Bytes}
use mpt_base.Prelude.Slice.{slice}
use mpt_base.Convert.Cobs.{
  Encoded, finish, bytes, encode_cobs, encode_input, append_bytes, finish_message, encode_loop,
  encode_step,
}
use mpt_base.Convert.Cobs.Message.{target, fresh, Delivered, encode_cobs-Delivered}
use mpt_base.Convert.Cobs.Reference.{cobs, uncobs, uncobs-cobs}

abbrev zeros : Bytes
zeros a = 0

abbrev text : List ℕ
text = 17 ∷ 0 ∷ 18 ∷ 19 ∷ []

blocks_run : cobs [] text ≡ 2 ∷ 17 ∷ 3 ∷ 18 ∷ 19 ∷ []
unfolding cobs
blocks_run = refl

abbrev written : Run Encoded → ℕ → List ℕ
written (done e) n = slice e.mem 0 n
written fault n = []

encode_run :
    written (encode_cobs (fresh 0) (target zeros 9) (bytes text)) 5 ≡ 2 ∷ 17 ∷ 3 ∷ 18 ∷ 19 ∷ []
unfolding encode_cobs encode_input append_bytes encode_loop encode_step
encode_run = refl

text-size : 1 + 5 < 9
text-size = omega arith

encode_cobs-Delivered_example : Delivered zeros 1 9 text
encode_cobs-Delivered_example =
    encode_cobs-Delivered zeros 1 9 17 (0 ∷ 18 ∷ 19 ∷ []) (unfold cobs in omega arith)

uncobs-cobs_example : uncobs (cobs [] text) ≡ some text
uncobs-cobs_example = uncobs-cobs [] text tt (omega arith)

no_space :
    encode_cobs (fresh 0) (target zeros 1) finish
    ≡ done (record { result = err missing_buffer; state = fresh 0; mem = zeros })
unfolding encode_cobs encode_input finish_message
no_space = refl

-- A full block at the end of the target is taken back by a byte, and then the count of finished
-- bytes is 1, although nothing is finished and the block starts at 0.
abbrev retreat_state : Run Encoded → ℕ × ℕ × ℕ
retreat_state (done e) = (e.state.complete, e.state.scratch, e.mem 0)
retreat_state fault = (0, 0, 0)

retreat_run :
    retreat_state (encode_cobs (fresh 0) (target zeros 255) (bytes (replicate 254 7)))
    ≡ (1, 254, 254)
unfolding encode_cobs encode_input append_bytes encode_loop encode_step
retreat_run = refl
