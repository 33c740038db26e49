-- ===== src/Message/Id/Laws.antt =====
-- Encoding an identifier, and how decoding ends.
use native.Mathlib.Nat.{pow-suc}
use mpt_base.Prelude.{
  ℕ, zero, suc, ◌+◌, ◌*◌, ◌/◌, ◌%◌, ◌^◌, ◌≤◌, ◌<◌, ◌≡◌, ◌==◌, refl, if◌then◌else◌, none, fault,
  false, ok, err, missing_buffer, done, arith, ap, ◌∙◌, ◌≢◌,
}
use mpt_base.Prelude.Int.{as_int_small}
use mpt_base.Prelude.Mem.{Bytes, update, sub_size}
use mpt_base.Message.Id.{Encoded, id_loop, message_id2buf, message_buf2id, value_loop}

-- The number that `k` bytes stand for, highest first.
pub be_value : Bytes → ℕ → ℕ
be_value m zero = 0
be_value m (suc k) = be_value m k * 0x100 + m k

be_value-update : (m : Bytes) (k n v : ℕ) → k ≤ n → be_value (update m n v) k ≡ be_value m k
unfolding be_value
be_value-update m zero n v h = refl
be_value-update m (suc k) n v h = ground (arith, be_value-update m k n v)

-- One round of the loop.
abbrev round : ℕ → Encoded → Encoded
round k s =
    let id = s.id / 0x100 in
    record {
      id = id;
      used = if id == 0 then s.used else s.used + 1;
      buf = update s.buf k (id % 0x100);
    }

-- What the loop leaves alone, what it writes, and when nothing of the identifier is left.
id_loop-above : (k a : ℕ) (s : Encoded) → k ≤ a → (id_loop k s).buf a ≡ s.buf a
unfolding id_loop
id_loop-above zero a s h = refl
id_loop-above (suc k) a s h = ground (arith, id_loop-above k a (round k s))

id_loop-first :
    (k : ℕ) (s : Encoded) → s.buf k ≡ s.id % 0x100 → (id_loop k s).buf 0 ≡ (id_loop k s).id % 0x100
unfolding id_loop
id_loop-first zero s h = h
id_loop-first (suc k) s h = id_loop-first k (round k s) (ground arith)

id_loop-value :
    (k : ℕ) (s : Encoded)
    → be_value (id_loop k s).buf k + (id_loop k s).id / 0x100 * 0x100 ^ k ≡ s.id / 0x100
unfolding id_loop be_value
id_loop-value zero s = omega arith
id_loop-value (suc k) s =
    let r = id_loop k (round k s) in
    let wrote : r.buf k ≡ s.id / 0x100 % 0x100 =
      id_loop-above k k (round k s) (omega arith) ∙ ground arith in
    omega (
      arith,
      ap (λ (t : ℕ). t * 0x100) (id_loop-value k (round k s)),
      wrote,
      ap (λ (t : ℕ). r.id / 0x100 * t) (pow-suc 0x100 k),
    )

id_loop-done : (k : ℕ) (s : Encoded) → s.id < 0x100 ^ k → (id_loop k s).id ≡ 0
unfolding id_loop
id_loop-done zero s h = omega arith
id_loop-done (suc k) s h = id_loop-done k (round k s) (omega (arith, pow-suc 0x100 k))

id_loop-left : (k : ℕ) (s : Encoded) → 0x100 ^ k ≤ s.id → (id_loop k s).id ≢ 0
unfolding id_loop
id_loop-left zero s h = omega arith
id_loop-left (suc k) s h = id_loop-left k (round k s) (omega (arith, pow-suc 0x100 k))

-- An identifier is encoded into `k + 1` bytes exactly if it is below 256 to the power of `k`: one
-- byte is left spare, which holds 0. Then the bytes stand for it, highest first; a greater one is
-- refused with MissingBuffer, and BadValue never occurs.
pub message_id2buf_lem :
    (id k : ℕ) (buf : Bytes)
    → (id < 0x100 ^ k
        → (used : ℕ) × (buf' : Bytes) × (message_id2buf id buf (suc k) ≡ (ok used, buf'))
          × (be_value buf' (suc k) ≡ id)
          × (buf' 0 ≡ 0))
      × (0x100 ^ k ≤ id → (message_id2buf id buf (suc k)).0 ≡ err missing_buffer)
unfolding message_id2buf be_value
message_id2buf_lem id k buf =
    let s : Encoded = record { id = id; used = 1; buf = update buf k (id % 0x100) } in
    let r = id_loop k s in
    let first : r.buf 0 ≡ r.id % 0x100 = id_loop-first k s (ground arith) in
    let last : r.buf k ≡ id % 0x100 = id_loop-above k k s (omega arith) ∙ ground arith in
    (
      λ h.
          let z : r.id ≡ 0 = id_loop-done k s h in
          let zero_byte : r.buf 0 ≡ 0 = omega arith in
          (
            r.used,
            r.buf,
            simp (z, zero_byte),
            omega (arith, id_loop-value k s, ap (λ (t : ℕ). t / 0x100 * 0x100 ^ k) z, last),
            zero_byte,
          ),
      λ h. ground (arith, id_loop-left k s h),
    )

-- Decoding one byte or more ends within two rounds of its loop: of one byte it reads a second one,
-- behind the buffer, and from two or more it returns whether the first byte is zero, before it
-- reads another one. No identifier is written.
pub message_buf2id_ends :
    (buf : Bytes) (k : ℕ)
    → suc k < 2 ^ 64
    → message_buf2id buf (suc k)
      ≡ (if k == 0 then fault else done (ok (if buf 0 == 0 then 0 else 1), none))
unfolding message_buf2id value_loop
message_buf2id_ends buf zero h = refl
message_buf2id_ends buf (suc k) h =
    let left : (sub_size (suc (suc k)) 1 == 0) ≡ false = ground arith in
    let flag = as_int_small (if buf 0 == 0 then 0 else 1) (ground arith) in
    let several : (suc k == 0) ≡ false = ground arith in rw (left, several, flag) refl
