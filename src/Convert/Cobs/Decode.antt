-- ===== src/Convert/Cobs/Decode.antt =====
-- mptcore/convert/decode_cobs.c, and the formats that it is compiled for, its own and the one of
-- decode_cobs_zpe.c. Decoding works in place, in memory that `struct iovec` elements divide; the
-- bytes of a message are written before the encoded ones.
pub mod Step
pub mod Whole
pub mod Stream
pub mod Advance
pub mod Ending
pub mod Entering
pub mod Safe
mod Tests
use mpt_base.Prelude.{
  ℕ, zero, suc, ◌+◌, ◌-◌, ◌*◌, ◌/◌, ◌%◌, ◌^◌, Bool, true, false, not, ◌&&◌, ◌||◌, Option, none,
  some, List, [], ◌∷◌, ◌==◌, ltb, leb, if◌then◌else◌, Result, ok, err, bad_argument, bad_value,
  bad_operation, take, missing_data, missing_buffer, Run, done, fault,
}
use mpt_base.Prelude.Mem.{Bytes, update, sub_size}

-- `struct iovec`
pub record Vec : Type 0 where
  pub base : ℕ
  pub len : ℕ

-- `MPT_STRUCT(decode_state)`: `msg` is `none` where the field is negative.
pub record DecodeState : Type 0 where
  pub ctx : ℕ
  pub curr : ℕ
  pub pos : ℕ
  pub len : ℕ
  pub msg : Option ℕ

-- `MPT_cobs_len_data`, `MPT_cobs_len_zero` and `MPT_cobs_max_dec`
pub record Format : Type 0 where
  pub len_data : ℕ → ℕ
  pub len_zero : ℕ → ℕ → ℕ
  pub max_dec : ℕ → ℕ

abbrev pub regular : Format
regular = record {
  len_data = λ c. c - 1;
  len_zero = λ c n. if ltb c 255 && not (n == 0) then 1 else 0;
  max_dec = λ c. c - c / 255;
}

abbrev pub zero_pairs : Format
zero_pairs = record {
  len_data = λ c. if leb c 223 then c - 1 else c - 224;
  len_zero = λ c n. if leb 224 c then 2 else if ltb c 223 && not (n == 0) then 1 else 0;
  max_dec = λ c. c * 2;
}

-- A message over the elements: the current one from `base` on, and those behind it.
pub record Cursor : Type 0 where
  pub base : ℕ
  pub used : ℕ
  pub cont : List Vec

unfoldable pub skip_vectors : (base used : ℕ) → List Vec → Cursor
skip_vectors base used [] = record { base = base; used = used; cont = [] }
skip_vectors base used (v ∷ cont) =
    let rest = skip_vectors v.base v.len cont in
    if used == 0 then rest else record { base = base; used = used; cont = v ∷ cont }

-- `mpt_message_read` with no destination, on addresses: the cursor, and whether the message has
-- all of the `len` bytes.
unfoldable pub seek : (base used : ℕ) → List Vec → (len : ℕ) → Cursor × Bool
seek base used [] len =
    if ltb used len
    then (record { base = base + used; used = 0; cont = [] }, false)
    else (record { base = base + len; used = used - len; cont = [] }, true)
seek base used (v ∷ cont) len =
    let rest = seek v.base v.len cont (len - used) in
    if ltb used len then rest else (skip_vectors (base + len) (used - len) (v ∷ cont), true)

abbrev pub seek_from : Cursor → ℕ → Cursor × Bool
seek_from c len = seek c.base c.used c.cont len

-- `while (align > 1)` for `align = 2 ^ k`: the number of bytes to the address that the message is
-- aligned to.
unfoldable pub align_target : (k addr curr proc : ℕ) → ℕ
align_target zero addr curr proc = 0
align_target (suc k) addr curr proc =
    let less = align_target k addr curr proc in
    if ltb curr (2 ^ k) || ltb proc (addr % 2 ^ suc k) then less else addr % 2 ^ suc k

-- The loop's variables.
pub record Decoder : Type 0 where
  pub mem : Bytes
  pub dst : ℕ
  pub dlen : ℕ
  pub dvec : List Vec
  pub src : ℕ
  pub clen : ℕ
  pub cont : List Vec
  pub proc : ℕ
  pub mlen : ℕ
  pub code : ℕ
  pub pos : ℕ

-- `while (!clen--)`: the next element with a byte; `none` if there is none.
unfoldable pub fetch : (src clen : ℕ) → List Vec → Option (ℕ × ℕ × List Vec)
fetch src zero [] = none
fetch src zero (v ∷ cont) = fetch v.base v.len cont
fetch src (suc n) cont = some (src, n, cont)

-- What a part of the loop ends with: it goes on, or returns, or runs over the elements' end.
pub data Progress : Type 0 where
  running : Decoder → Progress
  stopped : Result ℕ → Decoder → Progress
  overrun : Progress

-- One byte written, with the element that has space for it.
unfoldable pub put : Decoder → ℕ → Option Decoder
put d c = elim (fetch d.dst d.dlen d.dvec) [
  | none ↦ none
  | some (dst, dlen, dvec) ↦ some (record d {
    mem = update d.mem dst c;
    dst = dst + 1;
    dlen = dlen;
    dvec = dvec;
    mlen = d.mlen + 1;
    pos = d.pos + 1;
  })
]

-- One round of the loop over a block's bytes.
unfoldable pub data_byte : Decoder → Progress
data_byte d = elim (fetch d.src d.clen d.cont) [
  | none ↦ stopped (ok 0) d
  | some (src, clen, cont) ↦
      let d' = record d { src = src + 1; clen = clen; cont = cont } in
      if d.mem src == 0
      then stopped (err missing_data) d
      else if d.proc == 0
      then stopped (ok 0) d'
      else elim (put d' (d.mem src)) [ none ↦ overrun | some d'' ↦ running d'' ]
]

-- `for (; pos < curr; ++pos)` over the bytes of the block, with `n` to come.
unfoldable pub data_bytes : (n : ℕ) → Decoder → Progress
data_bytes zero d = running d
data_bytes (suc n) d = elim (data_byte d) [
  | running d' ↦ data_bytes n d'
  | stopped r d' ↦ stopped r d'
  | overrun ↦ overrun
]

-- The same loop over the zeros behind a block.
unfoldable pub zero_bytes : (n : ℕ) → Decoder → Progress
zero_bytes zero d = running d
zero_bytes (suc n) d = if d.proc == 0 then stopped (err missing_buffer) d else elim (put d 0) [
  | none ↦ overrun
  | some d' ↦ zero_bytes n (record d' { proc = d.proc - 1 })
]

-- `++proc; code = next; pos = 0;`
abbrev pub start_block : ℕ → Decoder → Decoder
start_block c d = record d { proc = d.proc + 1; code = c; pos = 0 }

-- The code behind a block, and its zeros.
unfoldable pub read_code : Format → Decoder → Progress
read_code f d = elim (fetch d.src d.clen d.cont) [
  | none ↦ stopped (ok 0) d
  | some (src, clen, cont) ↦
      let next = d.mem src in
      elim (zero_bytes (f.len_data d.code + f.len_zero d.code next - d.pos)
        (record d { src = src + 1; clen = clen; cont = cont })) [
          | running d' ↦ running (start_block next d')
          | stopped r d' ↦ stopped r d'
          | overrun ↦ overrun
        ]
]

pub record Decoded : Type 0 where
  pub result : Result ℕ
  pub state : DecodeState
  pub mem : Bytes

-- `MPT_cobs_state(code, pos)` and the fields that every return saves.
abbrev pub pause : (start : ℕ) → DecodeState → Result ℕ → Decoder → Decoded
pause start s r d = record {
  result = r;
  state = record s { ctx = d.pos * 256 + d.code; curr = start + d.mlen + d.proc; len = d.mlen };
  mem = d.mem;
}

abbrev pub deliver : (start : ℕ) → Decoder → Decoded
deliver start d = record {
  result = ok 1;
  state = record {
    ctx = 0;
    curr = start + d.mlen + d.proc;
    pos = start;
    len = d.mlen;
    msg = some d.mlen;
  };
  mem = d.mem;
}

-- `while (1)`, one block a round; `single` is a call for the first block only. It is a fault to run
-- out of fuel.
unfoldable pub decode_loop :
    Format → (single : Bool) (start : ℕ) → DecodeState → (fuel : ℕ) → Decoder → Run Decoded
decode_loop f single start s zero d = fault
decode_loop f single start s (suc fuel) d =
    if d.code == 0
    then done (deliver start d)
    else elim (data_bytes (f.len_data d.code - d.pos) d) [
      | overrun ↦ fault
      | stopped r d' ↦ done (pause start s r d')
      | running d' ↦ if single then done (pause start s (ok 0) d') else elim (read_code f d') [
        | overrun ↦ fault
        | stopped r d'' ↦ done (pause start s r d'')
        | running d'' ↦ decode_loop f single start s fuel d''
      ]
    ]

abbrev pub refuse : Result ℕ → DecodeState → Bytes → Run Decoded
refuse r s m = done (record { result = r; state = s; mem = m })

-- The loop's variables at its start.
abbrev pub decoder : DecodeState → (mlen : ℕ) (to from : Cursor) (proc code : ℕ) → Bytes → Decoder
decoder s mlen to from proc code m = record {
  mem = m;
  dst = to.base;
  dlen = to.used;
  dvec = to.cont;
  src = from.base;
  clen = from.used;
  cont = from.cont;
  proc = proc;
  mlen = mlen;
  code = code;
  pos = s.ctx / 256 % 256;
}

-- From the start of the encoded bytes on: `read` is the place of the message's data, `from` the
-- cursor there, and `proc` the distance of the encoded bytes.
unfoldable pub decode_from :
    Format → (single : Bool) (fuel start mlen proc : ℕ) → DecodeState → Cursor → Bytes → Run Decoded
decode_from f single fuel start mlen proc s from m =
    let (at_, whole) = seek_from from proc in
    let code = s.ctx % 256 in
    if not whole
    then refuse (err bad_argument) s m
    else if not (code == 0)
    then decode_loop f single start s fuel (decoder s mlen from at_ proc code m)
    else (let (next, any) = seek_from at_ 1 in
        let first = m at_.base in
        if not any
        then refuse (ok 0) s m
        else if first == 0
        then refuse (err bad_value) (record s { curr = proc + 1 }) m
        else decode_loop f single start s fuel (decoder s mlen from next (proc + 1) first m))

-- The message before is dropped, or the state is new: the message starts at the end of the data,
-- aligned where there is space.
abbrev pub drop_message : DecodeState → DecodeState
drop_message s = elim s.msg [ none ↦ s | some n ↦ record s { len = sub_size s.len n; msg = none } ]

abbrev pub dropped : DecodeState → ℕ
dropped s = elim s.msg [ none ↦ 0 | some n ↦ n ]

unfoldable pub decode_cobs :
    Format → (fuel : ℕ) → DecodeState → Option (List Vec) → (sourcelen : ℕ) → Bytes → Run Decoded
decode_cobs f fuel s none n m =
    if n == 0 then refuse (ok 0) (record s { ctx = 0 }) m else refuse (ok (f.max_dec n + s.len)) s m
decode_cobs f fuel s (some all) n m =
    let vecs = take (if n == 0 then 1 else n) all in
    let dlen = s.pos + s.len in
    let (tmp, whole) = seek 0 0 vecs dlen in
    let proc = s.curr - dlen in
    let s' = drop_message s in
    let start = s.pos + dropped s in
    let single = n == 0 in
    if ltb s.curr dlen || not whole
    then refuse (err bad_argument) s m
    else if single && not (elim s.msg [ none ↦ true | some _ ↦ false ])
    then refuse (err bad_operation) s m
    else if not (s'.len == 0)
    then decode_from f single fuel start s'.len proc s' tmp m
    else if single
    then refuse (err bad_operation) s' m
    else (let post = align_target 4 tmp.base tmp.used proc in
        decode_from f single fuel (dlen + post) 0 (proc - post) (record s' { pos = dlen + post })
          (seek_from tmp post).0 m)

-- The variant with the last byte in the code's place: a zero inside of a block ends the message.
abbrev pub restore_tail : List Vec → Decoded → Run Decoded
restore_tail vecs d =
    let tmp = (seek 0 0 vecs (d.state.pos + d.state.len)).0 in
    if tmp.used == 0
    then done (record d { result = err missing_buffer })
    else done (record {
      result = ok 1;
      state = record d.state {
        ctx = 0;
        len = d.state.len + 1;
        msg = some (d.state.len + 1);
        curr = d.state.curr + 1;
      };
      mem = update d.mem tmp.base (d.state.ctx % 256);
    })

abbrev pub tail_result : Option (List Vec) → Run Decoded → Run Decoded
tail_result vecs fault = fault
tail_result none (done d) = done d
tail_result (some vecs) (done d) = elim d.result [
  | ok n ↦ done d
  | err missing_data ↦ if d.state.ctx == 0 then done d else restore_tail vecs d
  | err _ ↦ done d
]

unfoldable pub decode_cobs_r :
    Format → (fuel : ℕ) → DecodeState → Option (List Vec) → (sourcelen : ℕ) → Bytes → Run Decoded
decode_cobs_r f fuel s vecs n m = tail_result vecs (decode_cobs f fuel s vecs n m)
