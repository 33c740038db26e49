-- ===== src/Message/Read.antt =====
-- mptcore/message/message_read.c: the data of a message in parts. A part is the list of its bytes,
-- whose length is the C code's `used` or `iov_len`, and moving its base takes bytes off its front.
pub mod Laws
mod Tests
use mpt_base.Prelude.{
  ℕ, ◌+◌, ◌-◌, Bool, List, [], ◌∷◌, ◌++◌, length, take, drop, ltb, ◌==◌, if◌then◌else◌,
}

-- `MPT_STRUCT(message)`: the current part and the `clen` parts behind it.
pub record PartedMessage : Type 0 where
  pub base : List ℕ
  pub cont : List (List ℕ)

-- What a read leaves: the message, the bytes copied in order, and the length returned.
pub record Reading : Type 0 where
  pub msg : PartedMessage
  pub copied : List ℕ
  pub total : ℕ

-- `while (!msg->used && msg->clen)`
unfoldable pub skip_empty : (base : List ℕ) (cont : List (List ℕ)) → PartedMessage
skip_empty base [] = record { base = base; cont = [] }
skip_empty base (v ∷ cont) =
    let rest = skip_empty v cont in
    if length base == 0 then rest else record { base = base; cont = v ∷ cont }

-- Behind the loop: `len` bytes are left to read and the current part has them.
abbrev pub read_last : (base : List ℕ) (cont : List (List ℕ)) (len : ℕ) → Reading
read_last base cont len = record {
  msg = skip_empty (drop len base) cont;
  copied = take len base;
  total = len;
}

-- A whole part in front of what is read behind it.
abbrev pub with_part : List ℕ → Reading → Reading
with_part part r = record { msg = r.msg; copied = part ++ r.copied; total = length part + r.total }

-- `while (len > (part = msg->used))`
unfoldable pub read_loop : (base : List ℕ) (cont : List (List ℕ)) (len : ℕ) → Reading
read_loop base [] len =
    if ltb (length base) len
    then with_part base (record { msg = record { base = []; cont = [] }; copied = []; total = 0 })
    else read_last base [] len
read_loop base (v ∷ cont) len =
    let rest = read_loop v cont (len - length base) in
    if ltb (length base) len then with_part base rest else read_last base (v ∷ cont) len

-- `mpt_message_read`, with a destination.
unfoldable pub message_read : PartedMessage → (len : ℕ) → Reading
message_read m len = read_loop m.base m.cont len

abbrev pub sum_lengths : List (List ℕ) → ℕ
sum_lengths [] = 0
sum_lengths (v ∷ cont) = length v + sum_lengths cont

-- `mpt_message_length`
unfoldable pub message_length : PartedMessage → ℕ
message_length m = length m.base + sum_lengths m.cont
