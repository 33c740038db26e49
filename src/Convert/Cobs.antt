-- ===== src/Convert/Cobs.antt =====
-- mptcore/convert/encode_cobs.c: the regular COBS encoder. It writes blocks of one code byte and up
-- to 254 bytes that are not zero; a code below 255 stands for a zero behind its block.
pub mod Reference
pub mod Blocks
pub mod Message
pub mod Refusals
pub mod Decode
pub mod Sizes
pub mod Loop
mod Tests
use mpt_base.Prelude.{
  ℕ, ◌+◌, ◌-◌, Bool, ◌&&◌, not, Option, none, some, List, [], ◌∷◌, length, ◌==◌, ltb, leb,
  if◌then◌else◌, Result, ok, err, bad_argument, bad_value, missing_buffer, Run, done, fault, ◌%◌,
}
use mpt_base.Prelude.Mem.{Bytes, update}

-- `MPT_COBS_MAXLEN`
abbrev pub max_len : ℕ
max_len = 255

-- `MPT_STRUCT(encode_state)`: `complete` is its field `done`.
pub record EncodeState : Type 0 where
  pub ctx : ℕ
  pub complete : ℕ
  pub scratch : ℕ

-- `uint8_t code = info->scratch`
abbrev pub code_of : EncodeState → ℕ
code_of s = s.scratch % 256

-- The loop's variables: the target's memory, the address behind the bytes written, the bytes that
-- are left, and the code of the block, whose byte stands `code` before `dst`.
pub record Writer : Type 0 where
  pub mem : Bytes
  pub dst : ℕ
  pub left : ℕ
  pub code : ℕ

-- `dst[-code] = code`
abbrev pub save : Writer → Writer
save w = record w { mem = update w.mem (w.dst - w.code) w.code }

-- `MPT_cobs_zero`
abbrev pub put_zero : Writer → Writer
put_zero w = record {
  mem = update w.mem (w.dst - w.code) w.code;
  dst = w.dst + 1;
  left = w.left - 1;
  code = 1;
}

-- `*(dst++) = curr; --left; ++code`
abbrev pub put_byte : ℕ → Writer → Writer
put_byte c w = record {
  mem = update w.mem w.dst c;
  dst = w.dst + 1;
  left = w.left - 1;
  code = (w.code + 1) % 256;
}

-- The start of a block behind one of maximum length.
abbrev pub next_block : Writer → Writer
next_block w = record {
  mem = update w.mem (w.dst - w.code) w.code;
  dst = w.dst + 1;
  left = w.left - 1;
  code = 1;
}

-- One byte of the source; `none` is a full block with no space for another.
unfoldable pub encode_step : ℕ → Writer → Option Writer
encode_step c w =
    if c == 0
    then some (put_zero w)
    else (let w' = put_byte c w in
        if w'.code == max_len
        then (if w'.left == 0 then none else some (next_block w'))
        else some w')

-- `--code; --dst; dst[-code] = code; ++len; --src`
abbrev pub retreat : ℕ → Writer → Writer
retreat c w = let w' = put_byte c w in save (record w' { dst = w'.dst - 1; code = w'.code - 1 })

-- The loop; the list is what it leaves of the source.
unfoldable pub encode_loop : List ℕ → Writer → Writer × List ℕ
encode_loop [] w = (save w, [])
encode_loop (c ∷ s) w = elim (encode_step c w) [
  | none ↦ (retreat c w, c ∷ s)
  | some w' ↦ let rest = encode_loop s w' in if w'.left == 0 then (save w', s) else rest
]

-- The data to encode: a null pointer ends the message, a null address with a length deletes.
pub data Input : Type 0 where
  finish : Input
  erase : ℕ → Input
  bytes : List ℕ → Input

-- `struct iovec` of the target; `none` for the memory is a null address.
pub record Target : Type 0 where
  pub base : Option Bytes
  pub size : ℕ

pub record Encoded : Type 0 where
  pub result : Result ℕ
  pub state : EncodeState
  pub mem : Bytes

abbrev pub reply : Result ℕ → EncodeState → Bytes → Run Encoded
reply r s m = done (record { result = r; state = s; mem = m })

-- The end of a message.
unfoldable pub finish_message : EncodeState → Bytes → (left : ℕ) → Run Encoded
finish_message s m left =
    if leb left (code_of s)
    then reply (err missing_buffer) s m
    else if code_of s == 0
    then (if ltb left 2
        then reply (err missing_buffer) s m
        else reply (ok 0) (record { ctx = 0; complete = 2; scratch = 0 })
            (update (update m s.complete 1) (s.complete + 1) 0))
    else reply (ok 0)
        (record { ctx = 0; complete = s.complete + (code_of s + 1) % 256; scratch = 0 })
        (update (update m s.complete (code_of s)) (s.complete + code_of s) 0)

-- The deletion of messages: the search for the end of the one before goes over the source's null
-- address.
unfoldable pub erase_messages : EncodeState → Bytes → ℕ → Run Encoded
erase_messages s m n =
    let count = if s.ctx == 0 then n else n - 1 in
    if count == 0
    then reply (ok s.complete) (record { ctx = 0; complete = s.complete; scratch = 0 }) m
    else if s.complete == 0
    then reply (err bad_value) s m
    else fault

-- The state behind the loop.
abbrev pub encoded : EncodeState → (size taken : ℕ) → Writer × List ℕ → Encoded
encoded s size n (w, rest) =
    let used = size - w.left in
    record {
      result = ok (n - length rest);
      state = record {
        ctx = s.ctx + (used - s.complete - s.scratch);
        complete = used - w.code;
        scratch = w.code;
      };
      mem = w.mem;
    }

-- The writer that a call starts with.
abbrev pub start : EncodeState → Bytes → (left : ℕ) → Writer
start s m left =
    if code_of s == 0
    then record { mem = m; dst = s.complete + 1; left = left - 1; code = 1 }
    else record { mem = m; dst = s.complete + code_of s; left = left - code_of s; code = code_of s }

unfoldable pub append_bytes : EncodeState → Bytes → (size : ℕ) → List ℕ → Run Encoded
append_bytes s m size src =
    let left = size - s.complete in
    if (if code_of s == 0 then leb left 1 else left - code_of s == 0)
    then reply (err missing_buffer) s m
    else done (encoded s size (length src) (encode_loop src (start s m left)))

unfoldable pub encode_input : EncodeState → Bytes → (size : ℕ) → Input → Run Encoded
encode_input s m size finish = finish_message s m (size - s.complete)
encode_input s m size (erase n) = if n == 0 then reply (err bad_value) s m else erase_messages s m n
encode_input s m size (bytes []) = reply (err bad_value) s m
encode_input s m size (bytes (c ∷ src)) = append_bytes s m size (c ∷ src)

abbrev blank : Bytes
blank _ = 0

-- `mpt_encode_cobs`; no target resets the state.
unfoldable pub encode_cobs : EncodeState → Option Target → Input → Run Encoded
encode_cobs s none input = reply (ok 0) (record { ctx = 0; complete = 0; scratch = 0 }) blank
encode_cobs s (some t) input = elim t.base [
  | none ↦
      reply
        (err (
          if code_of s == 0 && s.complete == 0 && t.size == 0
          then missing_buffer
          else bad_argument))
        s blank
  | some m ↦
      if ltb t.size s.complete
      then reply (err bad_argument) s m
      else if ltb (t.size - s.complete) (code_of s)
      then reply (err bad_argument) s m
      else encode_input s m t.size input
]
