-- ===== src/Convert/Cobs/Message.antt =====
-- Whole messages through the encoder: a call with the bytes and one that ends the message.
use mpt_base.Prelude.{
  ℕ, suc, ◌+◌, ◌-◌, ◌<◌, ◌≤◌, ◌≡◌, refl, sym, ap, ◌∙◌, List, [], ◌∷◌, ◌++◌, Option, some, length,
  arith, ok, done, ◌%◌,
}
use mpt_base.Prelude.Mem.{Bytes, update}
use mpt_base.Prelude.Slice.{slice, length-slice, slice_congr, slice_last}
use mpt_base.Convert.Cobs.{
  Writer, EncodeState, Target, Encoded, finish, bytes, encode_cobs, encode_input, append_bytes,
  finish_message, encoded, encode_loop,
}
use mpt_base.Convert.Cobs.Blocks.{writer}
use mpt_base.Convert.Cobs.Loop.{Written, encode_loop_lem}
use mpt_base.Convert.Cobs.Sizes.{cobs_size}
use mpt_base.Convert.Cobs.Reference.{cobs, uncobs, uncobs-cobs}

-- A target of `n` bytes.
abbrev pub target : Bytes → (n : ℕ) → Option Target
target m n = some (record { base = some m; size = n })

-- The state before a message, behind `n` bytes of finished ones.
abbrev pub fresh : (n : ℕ) → EncodeState
fresh n = record { ctx = 0; complete = n; scratch = 0 }

-- What a message leaves behind: its state `e` once its bytes are in, and `f` once it has ended.
pub record Delivered (m : Bytes) (d size : ℕ) (src : List ℕ) : Type 0 where
  pub e : Encoded
  pub f : Encoded
  pub appended : encode_cobs (fresh d) (target m size) (bytes src) ≡ done e
  pub taken : e.result ≡ ok (length src)
  pub ended : encode_cobs e.state (target e.mem size) finish ≡ done f
  pub result : f.result ≡ ok 0
  pub state : f.state ≡ fresh (d + length (cobs [] src) + 1)
  pub frame : slice f.mem d (length (cobs [] src) + 1) ≡ cobs [] src ++ (0 ∷ [])
  pub decoded : uncobs (slice f.mem d (length (cobs [] src))) ≡ some src
  pub below : (a : ℕ) → a < d → f.mem a ≡ m a
  pub above : (a : ℕ) → size ≤ a → f.mem a ≡ m a

small_mod : (n : ℕ) → n ≤ 253 → suc n % 256 ≡ suc n
small_mod n h = omega arith

append_fresh :
    (m : Bytes) (d size : ℕ) (c : ℕ) (src : List ℕ)
    → d + 1 < size
    → encode_cobs (fresh d) (target m size) (bytes (c ∷ src))
      ≡ done (
          encoded
            (fresh d)
            size
            (length (c ∷ src))
            (encode_loop (c ∷ src) (writer m d 0 (size - d - 1))))
unfolding encode_cobs encode_input append_bytes
append_fresh m d size c src h = ground arith

-- The end of a message with an open block.
finish_open :
    (ctx : ℕ) (m : Bytes) (size b n end : ℕ)
    → n ≤ 253
    → b + suc n < size
    → end ≡ b + suc n + 1
    → encode_cobs (record { ctx = ctx; complete = b; scratch = suc n }) (target m size) finish
      ≡ done (record {
        result = ok 0;
        state = fresh end;
        mem = update (update m b (suc n)) (b + suc n) 0;
      })
unfolding encode_cobs encode_input finish_message
finish_open ctx m size b n end s h e = rw (small_mod n s) (ground arith)

-- The terminator behind what the loop wrote.
frame-end :
    (m : Bytes) (b base size k : ℕ)
    → m base ≡ suc size
    → b + k ≡ base + suc size
    → slice (update (update m base (suc size)) (base + suc size) 0) b (k + 1)
      ≡ slice m b k ++ (0 ∷ [])
frame-end m b base size k e q =
    let m' = update (update m base (suc size)) (base + suc size) 0 in
    let succ : k + 1 ≡ suc k = omega arith in
    rw (succ, slice_last m' b k, slice_congr m' m b k λ a lo hi. ground arith)
      (ap (λ (x : ℕ). slice m b k ++ (x ∷ [])) (ground arith))

blocks-end :
    (m : Bytes) (b base size k : ℕ)
    → m base ≡ suc size
    → b + k ≡ base + suc size
    → slice (update (update m base (suc size)) (base + suc size) 0) b k ≡ slice m b k
blocks-end m b base size k e q =
    slice_congr (update (update m base (suc size)) (base + suc size) 0) m b k
      λ a lo hi. ground arith

delivered :
    (m : Bytes) (d size c : ℕ) (src : List ℕ)
    → Written m d size (cobs [] (c ∷ src)) (encode_loop (c ∷ src) (writer m d 0 (size - d - 1)))
    → d + length (cobs [] (c ∷ src)) < size
    → Delivered m d size (c ∷ src)
delivered m d size c src w h =
    let total = length (cobs [] (c ∷ src)) in
    let b = w.base in
    let n = w.size in
    let after = w.after in
    let balance = w.balance in
    let used : b - d + suc n ≡ total =
      sym (length-slice w.mem d (b - d + suc n)) ∙ ap length w.holds in
    let place : d + total ≡ b + suc n = omega arith in
    let e = encoded (fresh d) size (length (c ∷ src)) (writer w.mem b n w.room, []) in
    let fm = update (update w.mem b (suc n)) (b + suc n) 0 in
    let complete : size - w.room - suc n ≡ b = omega arith in
    let blocks : slice w.mem d total ≡ cobs [] (c ∷ src) = rw used at w.holds in
    record {
      e = e;
      f = record { result = ok 0; state = fresh (d + total + 1); mem = fm };
      appended =
          append_fresh m d size c src (omega arith)
          ∙ ap (λ (r : Writer × List ℕ). done (encoded (fresh d) size (length (c ∷ src)) r)) w.is;
      taken = ap ok (omega arith);
      ended =
          ap
            (λ (x : ℕ).
              encode_cobs (record { ctx = e.state.ctx; complete = x; scratch = suc n })
                (target w.mem size) finish)
            complete
          ∙ finish_open e.state.ctx w.mem size b n (d + total + 1) w.short (omega arith)
              (omega arith);
      result = refl;
      state = refl;
      frame = frame-end w.mem d b n total w.head place ∙ ap (λ (x : List ℕ). x ++ (0 ∷ [])) blocks;
      decoded =
          ap uncobs (blocks-end w.mem d b n total w.head place ∙ blocks)
          ∙ uncobs-cobs [] (c ∷ src) tt (omega arith);
      below = λ a o. (ground arith) ∙ w.below a o;
      above = λ a o. (ground arith) ∙ w.above a o;
    }

-- A message of at least a byte that fits the space behind finished messages, with its terminator,
-- is taken whole by one call and ended by the next: both succeed, the bytes added are the blocks of
-- the message and a zero, decoding the blocks gives the message back, the state counts the bytes
-- added and is ready for the next message, and no byte before or behind the space is changed.
pub encode_cobs-Delivered :
    (m : Bytes) (d size c : ℕ) (src : List ℕ)
    → d + length (cobs [] (c ∷ src)) < size
    → Delivered m d size (c ∷ src)
encode_cobs-Delivered m d size c src h =
    let total = length (cobs [] (c ∷ src)) in
    let min = cobs_size [] (c ∷ src) in
    let w : Written m d size (cobs [] (c ∷ src))
        (encode_loop (c ∷ src) (writer m d 0 (size - d - 1))) =
      encode_loop_lem (c ∷ src) m d 0 (size - d - 1) size (omega arith) (omega arith)
        (omega arith) in
    delivered m d size c src w h
