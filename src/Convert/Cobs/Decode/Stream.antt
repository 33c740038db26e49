-- ===== src/Convert/Cobs/Decode/Stream.antt =====
-- Calls of the decoder between messages, and the decoder behind the encoder.
use mpt_base.Prelude.{
  ℕ, zero, suc, ◌+◌, ◌-◌, ◌<◌, ◌≤◌, ◌≡◌, ◌≢◌, refl, ap, List, [], ◌∷◌, ◌++◌, true, false, none,
  some, length, ◌==◌, arith, ==-false, ltb-false, ◌⊎◌, inl, inr, length-append,
}
use native.Mathlib.Decide.{ℕ_discrete}
use mpt_base.Prelude.Mem.{Bytes}
use mpt_base.Prelude.Slice.{slice}
use mpt_base.Convert.Cobs.Reference.{unblock, uncobs, cobs, uncobs-cobs}
use mpt_base.Convert.Cobs.Sizes.{cobs-end, cobs-zero, cobs-byte, cobs-full}
use mpt_base.Convert.Cobs.Message.{Delivered, encode_cobs-Delivered}
use mpt_base.Convert.Cobs.Decode.{
  Vec, Cursor, Decoder, DecodeState, regular, decode_loop, decode_from, decode_cobs, seek,
  skip_vectors, align_target, drop_message,
}
use mpt_base.Convert.Cobs.Decode.Step.{reader, loop, reader-eq}
use mpt_base.Convert.Cobs.Decode.Whole.{AreBytes, Delivers, ended, decode_frame, slice-head}

-- A state between messages: a new one, or one with a complete message.
pub record IsReady (s : DecodeState) : Type 0 where
  pub ctx : s.ctx ≡ 0
  pub msg : ((s.msg ≡ none) × (s.len ≡ 0)) ⊎ (s.msg ≡ some s.len)
  pub order : s.pos + s.len ≤ s.curr

abbrev pub cursor : (base used : ℕ) → Cursor
cursor b u = record { base = b; used = u; cont = [] }

pub seek-one : (b u n : ℕ) → n ≤ u → seek b u [] n ≡ (cursor (b + n) (u - n), true)
unfolding seek
seek-one b u n h = rw (ltb-false u n h) refl

pub seek-first :
    (v : Vec) (n : ℕ) → n ≤ v.len → seek 0 0 (v ∷ []) n ≡ (cursor (v.base + n) (v.len - n), true)
unfolding seek skip_vectors
seek-first v n h = elim (ℕ_discrete n 0) [ yes z ↦ ground arith | no nz ↦ ground arith ]

pub align_target_bound : (k a c p : ℕ) → align_target k a c p ≤ p
unfolding align_target
align_target_bound zero a c p = omega arith
align_target_bound (suc k) a c p = let rest = align_target_bound k a c p in ground arith

drop-ready : (s : DecodeState) → IsReady s → (drop_message s).len ≡ 0
drop-ready s r = elim r.msg [ inl (n, z) ↦ rw n z | inr e ↦ rw e (omega arith) ]

uncobs-zero : (c : ℕ) (r y : List ℕ) → c ≡ 0 → uncobs (c ∷ r) ≢ some y
unfolding uncobs
uncobs-zero c r y z e = ground arith

uncobs-nil : (y : List ℕ) → uncobs [] ≢ some y
unfolding uncobs
uncobs-nil y e = cc

drop-ctx : (s : DecodeState) → IsReady s → (drop_message s).ctx ≡ 0
drop-ctx s r = elim r.msg [ inl (n, z) ↦ rw n r.ctx | inr e ↦ rw e r.ctx ]

-- The call's loop, at a state between messages.
decode_from-frame :
    (fuel start p k : ℕ) (s : DecodeState) (b : ℕ) (m : Bytes) (c : ℕ) (r y : List ℕ)
    → s.ctx ≡ 0
    → slice m (b + p) (suc (suc (length r))) ≡ c ∷ (r ++ (0 ∷ []))
    → AreBytes (c ∷ r)
    → uncobs (c ∷ r) ≡ some y
    → p + suc (suc (length r)) ≤ k
    → length r + 1 < fuel
    → Delivers m b
        (b + p + suc (suc (length r)))
        0
        start
        y
        (decode_from regular false fuel start 0 p s (cursor b k) m)
unfolding decode_from uncobs decode_loop
decode_from-frame fuel start p k s b m c r y z e small u room hf =
    let (read, rest) = slice-head m (b + p) (suc (length r)) c (r ++ (0 ∷ [])) e in
    let nz : c ≢ 0 = λ q. uncobs-zero c r y q u in
    let u' : unblock (c - 1) (c == 255) r ≡ some y = rw (==-false c 0 nz) at u in
    let at_ : b + (p + 1) ≡ b + p + 1 = omega arith in
    let start_ : decode_from regular false fuel start 0 p s (cursor b k) m
        ≡ loop start s fuel (reader m b (p + 1) (k - p - 1) 0 c 0) =
      rw
        (
          decode_from,
          seek-one b k p (omega arith),
          z,
          seek-one (b + p) (k - p) 1 (omega arith),
          read,
          ==-false c 0 nz,
        )
        (ap (λ (d : Decoder). decode_loop regular false start s fuel d)
          (reader-eq m b (p + 1) (k - p - 1) 0 c 0 b k (b + p + 1) refl (omega arith)
            (omega arith))) in
    rw start_ (
      decode_frame start s r y (c - 1) (c == 255) fuel m b (p + 1) (k - p - 1) 0 c 0
        (b + p + suc (suc (length r))) small.1 (rw at_ rest) u' (omega arith) (omega arith) nz
        small.0 (omega arith) refl (omega arith) (omega arith))

-- A call between messages, with the next message and its terminator in the element behind the
-- data that is consumed, delivers it: it is decoded into the space in front of the encoded bytes or
-- in place, the state is between messages again, and the encoded data behind the terminator is next.
pub decode_cobs_lem :
    (fuel : ℕ) (s : DecodeState) (v : Vec) (m : Bytes) (r y : List ℕ)
    → IsReady s
    → slice m (v.base + s.curr) (length r + 1) ≡ r ++ (0 ∷ [])
    → AreBytes r
    → uncobs r ≡ some y
    → s.curr + length r + 1 ≤ v.len
    → length r < fuel
    → (start : ℕ) × (s.pos + s.len ≤ start)
      × (start ≤ s.curr)
      × Delivers m
          (v.base + start)
          (v.base + s.curr + length r + 1)
          0
          start
          y
          (decode_cobs regular fuel s (some (v ∷ [])) 1 m)
unfolding decode_cobs
decode_cobs_lem fuel s v m [] y ready e small u room hf = absurd (uncobs-nil y u)
decode_cobs_lem fuel s v m (c ∷ r) y ready e small u room hf =
    let order = ready.order in
    let dlen = s.pos + s.len in
    let post = align_target 4 (v.base + dlen) (v.len - dlen) (s.curr - dlen) in
    let bound = align_target_bound 4 (v.base + dlen) (v.len - dlen) (s.curr - dlen) in
    let end : v.base + s.curr + length (c ∷ r) + 1
        ≡ v.base + dlen + post + (s.curr - dlen - post) + suc (suc (length r)) =
      omega arith in
    let at_ : v.base + (dlen + post) ≡ v.base + dlen + post = omega arith in
    let size : length (c ∷ r) + 1 ≡ suc (suc (length r)) = omega arith in
    let src : v.base + dlen + post + (s.curr - dlen - post) ≡ v.base + s.curr = omega arith in
    (
      dlen + post,
      omega arith,
      omega arith,
      rw
          (
            seek-first v dlen (omega arith),
            ltb-false s.curr dlen order,
            drop-ready s ready,
            seek-one (v.base + dlen) (v.len - dlen) post (omega arith),
            end,
            at_,
          )
          (decode_from-frame fuel (dlen + post) (s.curr - dlen - post) (v.len - dlen - post)
            (record (drop_message s) { pos = dlen + post; len = 0 }) (v.base + dlen + post) m c r y
            (drop-ctx s ready) (rw src (rw size at e)) small u (omega arith) (omega arith)),
    )

AreBytes-append : (x y : List ℕ) → AreBytes x → AreBytes y → AreBytes (x ++ y)
AreBytes-append [] y h k = k
AreBytes-append (c ∷ x) y h k = (h.0, AreBytes-append x y h.1 k)

AreBytes-cobs :
    (cur src : List ℕ) → length cur ≤ 253 → AreBytes cur → AreBytes src → AreBytes (cobs cur src)
AreBytes-cobs cur [] l h k = rw (cobs-end cur (length cur) refl) (omega arith, h)
AreBytes-cobs cur (c ∷ s) l h k =
    let more = AreBytes-append cur (c ∷ []) h (k.0, tt) in
    let size = length-append cur (c ∷ []) in
    elim (ℕ_discrete c 0) [
      | yes z ↦
          rw (z, cobs-zero cur s (length cur) refl)
            (
              omega arith,
              AreBytes-append cur (cobs [] s) h (AreBytes-cobs [] s (omega arith) tt k.1),
            )
      | no nz ↦ elim (ℕ_discrete (length cur) 253) [
        | yes f ↦ rw (cobs-full c cur s nz f) (
          omega arith,
          AreBytes-append (cur ++ (c ∷ [])) (cobs [] s) more
              (AreBytes-cobs [] s (omega arith) tt k.1),
        )
        | no nf ↦
            rw (cobs-byte c cur s nz nf) (AreBytes-cobs (cur ++ (c ∷ [])) s (omega arith) more k.1)
      ]
    ]

-- A message of at least one byte, with space for its blocks and the zero behind the decoder's place,
-- is taken by one call of the encoder and ended by the next. Then a call of the decoder that is
-- between messages, with fuel for the blocks, turns what was written into the message again and is
-- ready for the data behind.
pub decode_cobs-encode_cobs :
    (fuel : ℕ) (s : DecodeState) (m : Bytes) (size c : ℕ) (src : List ℕ)
    → IsReady s
    → AreBytes (c ∷ src)
    → s.curr + length (cobs [] (c ∷ src)) < size
    → length (cobs [] (c ∷ src)) < fuel
    → (sent : Delivered m s.curr size (c ∷ src)) × (start : ℕ) × (s.pos + s.len ≤ start)
      × (start ≤ s.curr)
      × Delivers sent.f.mem start
          (s.curr + length (cobs [] (c ∷ src)) + 1)
          0
          start
          (c ∷ src)
          (decode_cobs regular fuel s (some (record { base = 0; len = size } ∷ [])) 1 sent.f.mem)
decode_cobs-encode_cobs fuel s m size c src ready small room hf =
    let frame = cobs [] (c ∷ src) in
    let sent = encode_cobs-Delivered m s.curr size c src room in
    let zero_ : (n : ℕ) → 0 + n ≡ n = λ n. omega arith in
    let decoded : uncobs frame ≡ some (c ∷ src) = uncobs-cobs [] (c ∷ src) tt (omega arith) in
    let (start, lo, hi, r) =
      decode_cobs_lem fuel s (record { base = 0; len = size }) sent.f.mem frame (c ∷ src) ready
        (rw zero_ sent.frame) (AreBytes-cobs [] (c ∷ src) (omega arith) tt small) decoded
        (omega arith) hf in
    (sent, start, lo, hi, rw (zero_ start, zero_ s.curr) at r)

-- The state after a delivery is between messages, at the end of the encoded data.
pub ended-IsReady : (start l g : ℕ) (m : Bytes) → IsReady (ended start m l g).state
ended-IsReady start l g m = record { ctx = refl; msg = inr refl; order = omega arith }
