-- ===== src/Convert/Cobs/Refusals.antt =====
-- What the encoder refuses, the end of an empty message, and the deletion of messages.
use mpt_base.Prelude.{
  ℕ, ◌+◌, ◌<◌, ◌≤◌, ◌≡◌, ◌≢◌, refl, [], ◌∷◌, arith, ok, err, done, fault, bad_value, Error,
}
use mpt_base.Prelude.Mem.{Bytes, update}
use mpt_base.Convert.Cobs.{
  EncodeState, Encoded, Input, finish, erase, bytes, encode_cobs, encode_input, append_bytes,
  finish_message, erase_messages,
}
use mpt_base.Convert.Cobs.Message.{target, fresh}

-- With a target, an error leaves the state and the target's bytes as they were, for every input.
pub encode_cobs_refused :
    (s : EncodeState) (m : Bytes) (size : ℕ) (input : Input) (e : Encoded) (x : Error)
    → encode_cobs s (target m size) input ≡ done e
    → e.result ≡ err x
    → (e.state ≡ s) × (e.mem ≡ m)
unfolding encode_cobs encode_input append_bytes finish_message erase_messages
encode_cobs_refused s m size finish e x h k = ground arith
encode_cobs_refused s m size (erase n) e x h k = ground arith
encode_cobs_refused s m size (bytes []) e x h k = ground arith
encode_cobs_refused s m size (bytes (c ∷ src)) e x h k = ground arith

-- Ending a message that has no bytes, behind `d` bytes of finished messages and with space for two
-- more, writes the bytes 1 and 0 there and succeeds, but the state then counts 2 bytes in all: the
-- bytes of the finished messages are not counted any more where there were some.
pub encode_cobs_empty :
    (m : Bytes) (d size : ℕ)
    → d + 2 ≤ size
    → (e : Encoded) × (encode_cobs (fresh d) (target m size) finish ≡ done e)
      × (e.result ≡ ok 0)
      × (e.mem d ≡ 1)
      × (e.mem (d + 1) ≡ 0)
      × (e.state ≡ fresh 2)
      × (0 < d → e.state.complete ≢ d + 2)
unfolding encode_cobs encode_input finish_message
encode_cobs_empty m d size h = (
  record { result = ok 0; state = fresh 2; mem = update (update m d 1) (d + 1) 0 },
  ground arith,
  refl,
  ground arith,
  ground arith,
  refl,
  λ p q. omega arith,
)

-- Deleting messages, with none begun: where no message is finished it is refused as a bad value,
-- and where one is, the search for its start reads from a null address.
pub encode_cobs-erase :
    (m : Bytes) (d size n : ℕ)
    → d ≤ size
    → 0 < n
    → (d ≡ 0
        → (e : Encoded) × (encode_cobs (fresh d) (target m size) (erase n) ≡ done e)
          × (e.result ≡ err bad_value))
      × (0 < d → encode_cobs (fresh d) (target m size) (erase n) ≡ fault)
unfolding encode_cobs encode_input erase_messages
encode_cobs-erase m d size n h k = (
  λ z. (record { result = err bad_value; state = fresh d; mem = m }, ground arith, refl),
  λ p. ground arith,
)
