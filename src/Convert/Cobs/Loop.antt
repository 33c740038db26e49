-- ===== src/Convert/Cobs/Loop.antt =====
-- The encoder's loop where the space suffices: it takes the whole source.
use mpt_base.Prelude.{
  ℕ, suc, ◌+◌, ◌-◌, ◌<◌, ◌≤◌, ◌≡◌, ◌≢◌, refl, sym, ap, ◌∙◌, List, [], ◌∷◌, ◌++◌, some, length,
  length-append, arith, ==-false,
}
use native.Mathlib.Decide.{ℕ_discrete}
use mpt_base.Prelude.Mem.{Bytes, update}
use mpt_base.Prelude.Slice.{slice, length-slice, slice_congr, slice-append, slice_last}
use mpt_base.Convert.Cobs.{Writer, save, encode_step, encode_loop}
use mpt_base.Convert.Cobs.Blocks.{writer, save-writer, step-zero, step-byte, step-full}
use mpt_base.Convert.Cobs.Reference.{cobs}
use mpt_base.Convert.Cobs.Sizes.{cobs-end, cobs-zero, cobs-byte, cobs-full, cobs_size, cobs_min}

-- What the loop leaves behind for a source that it encodes as `blocks` from the address `b` on,
-- with the space up to `end`.
pub record Written (m : Bytes) (b end : ℕ) (blocks : List ℕ) (r : Writer × List ℕ) : Type 0 where
  pub mem : Bytes
  pub base : ℕ
  pub size : ℕ
  pub room : ℕ
  pub is : r ≡ (writer mem base size room, [])
  pub after : b ≤ base
  pub short : size ≤ 253
  pub holds : slice mem b (base - b + suc size) ≡ blocks
  pub head : mem base ≡ suc size
  pub balance : base + suc size + room ≡ end
  pub below : (a : ℕ) → a < b → mem a ≡ m a
  pub above : (a : ℕ) → end ≤ a → mem a ≡ m a

-- A block whose code is `v`, over the bytes of `m`.
slice_block :
    (m k : Bytes) (b n v z : ℕ)
    → z ≡ suc n
    → k b ≡ v
    → ((a : ℕ) → b < a → a < b + suc n → k a ≡ m a)
    → slice k b z ≡ v ∷ slice m (b + 1) n
slice_block m k b n v z q e h =
    rw (q, e)
      (ap (λ (r : List ℕ). v ∷ r)
        (slice_congr k m (b + 1) n λ a lo hi. h a (omega arith) (omega arith)))

update_same : (m : Bytes) (b v : ℕ) → update m b v b ≡ v
update_same m b v = ground arith

update_other : (m : Bytes) (b v a : ℕ) → a ≢ b → update m b v a ≡ m a
update_other m b v a ne = rw (==-false a b ne)

add-sub : (n k : ℕ) → n - n + k ≡ k
add-sub n k = omega arith

-- The end of the source.
stop :
    (m : Bytes) (b n left : ℕ)
    → n ≤ 253
    → Written m b (b + suc n + left) (cobs (slice m (b + 1) n) []) (save (writer m b n left), [])
stop m b n left l = record {
  mem = update m b (suc n);
  base = b;
  size = n;
  room = left;
  is = ap (λ (w : Writer). (w, [])) (save-writer m b n left);
  after = omega arith;
  short = l;
  holds = rw (add-sub b (suc n)) (
      slice_block m (update m b (suc n)) b n (suc n) (suc n) refl (update_same m b (suc n))
        (λ a lo hi. update_other m b (suc n) a (omega arith))
      ∙ sym (cobs-end (slice m (b + 1) n) n (length-slice m (b + 1) n)));
  head = update_same m b (suc n);
  balance = refl;
  below = λ a o. update_other m b (suc n) a (omega arith);
  above = λ a o. update_other m b (suc n) a (omega arith);
}

-- A block that is closed, before what the rest of the source gives.
close :
    (m m' : Bytes) (b k end : ℕ) (block blocks : List ℕ) (r : Writer × List ℕ)
    → slice m' b k ≡ block
    → b + k ≤ end
    → ((a : ℕ) → a < b → m' a ≡ m a)
    → ((a : ℕ) → end ≤ a → m' a ≡ m a)
    → Written m' (b + k) end blocks r
    → Written m b end (block ++ blocks) r
close m m' b k end block blocks r e le lo hi w =
    let size : w.base - b + suc w.size ≡ k + (w.base - (b + k) + suc w.size) =
      let h = w.after in omega arith in
    record {
      mem = w.mem;
      base = w.base;
      size = w.size;
      room = w.room;
      is = w.is;
      after = let h = w.after in omega arith;
      short = w.short;
      holds = rw size (
          slice-append w.mem b k (w.base - (b + k) + suc w.size)
          ∙ (rw (slice_congr w.mem m' b k λ a l h. w.below a h, e, w.holds) refl));
      head = w.head;
      balance = w.balance;
      below = λ a h. w.below a (omega arith) ∙ lo a h;
      above = λ a h. w.above a h ∙ hi a h;
    }

-- A byte that goes into the open block.
grow :
    (m m' : Bytes) (b end : ℕ) (blocks : List ℕ) (r : Writer × List ℕ)
    → ((a : ℕ) → a < b → m' a ≡ m a)
    → ((a : ℕ) → end ≤ a → m' a ≡ m a)
    → Written m' b end blocks r
    → Written m b end blocks r
grow m m' b end blocks r lo hi w = record {
  mem = w.mem;
  base = w.base;
  size = w.size;
  room = w.room;
  is = w.is;
  after = w.after;
  short = w.short;
  holds = w.holds;
  head = w.head;
  balance = w.balance;
  below = λ a h. w.below a h ∙ lo a h;
  above = λ a h. w.above a h ∙ hi a h;
}

slice_grow :
    (m : Bytes) (t a n c : ℕ) → t ≡ a + n → slice (update m t c) a (suc n) ≡ slice m a n ++ (c ∷ [])
slice_grow m t a n c e =
    let last : update m t c (a + n) ≡ c = rw (← e) (update_same m t c) in
    rw
      (
        slice_last (update m t c) a n,
        last,
        slice_congr (update m t c) m a n λ i lo hi. update_other m t c i (omega arith),
      )
      refl

loop-step :
    (c : ℕ) (s : List ℕ) (w w' : Writer)
    → encode_step c w ≡ some w'
    → w'.left ≢ 0
    → encode_loop (c ∷ s) w ≡ encode_loop s w'
unfolding encode_loop
loop-step c s w w' e ne = rw (encode_loop, e, ==-false w'.left 0 ne) refl

-- What the loop does with the rest of a source.
abbrev Rest : List ℕ → (b n end : ℕ) → Type 0
Rest s b n end =
    (m : Bytes) (left : ℕ)
    → b + suc n + left ≡ end
    → length (cobs (slice m (b + 1) n) s) < suc n + left
    → Written m b end (cobs (slice m (b + 1) n) s) (encode_loop s (writer m b n left))

loop_zero :
    (c : ℕ) (s : List ℕ) (m : Bytes) (b n left end : ℕ)
    → c ≡ 0
    → b + suc n + left ≡ end
    → length (cobs (slice m (b + 1) n) (c ∷ s)) < suc n + left
    → Rest s (b + suc n) 0 end
    → Written m b end (cobs (slice m (b + 1) n) (c ∷ s)) (encode_loop (c ∷ s) (writer m b n left))
loop_zero c s m b n left end z e h more =
    let cur = slice m (b + 1) n in
    let m' = update m b (suc n) in
    let size = length-slice m (b + 1) n in
    let rest = cobs_size [] s in
    let blocks : cobs cur (c ∷ s) ≡ (suc n ∷ cur) ++ cobs [] s = rw z (cobs-zero cur s n size) in
    let total : length (cobs cur (c ∷ s)) ≡ suc (length cur) + length (cobs [] s) =
      ap length blocks ∙ length-append (suc n ∷ cur) (cobs [] s) in
    let step : encode_step c (writer m b n left) ≡ some (writer m' (b + suc n) 0 (left - 1)) =
      rw z (step-zero m b n left) in
    rw
      (
        loop-step c s (writer m b n left) (writer m' (b + suc n) 0 (left - 1)) step (omega arith),
        blocks,
      )
      (close m m' b (suc n) end (suc n ∷ cur) (cobs [] s)
        (encode_loop s (writer m' (b + suc n) 0 (left - 1)))
        (slice_block m m' b n (suc n) (suc n) refl (update_same m b (suc n))
          λ a lo hi. update_other m b (suc n) a (omega arith))
        (omega arith) (λ a o. update_other m b (suc n) a (omega arith))
        (λ a o. update_other m b (suc n) a (omega arith))
        (more m' (left - 1) (omega arith) (omega arith)))

loop_byte :
    (c : ℕ) (s : List ℕ) (m : Bytes) (b n left end : ℕ)
    → c ≢ 0
    → n ≤ 253
    → n ≢ 253
    → b + suc n + left ≡ end
    → length (cobs (slice m (b + 1) n) (c ∷ s)) < suc n + left
    → Rest s b (suc n) end
    → Written m b end (cobs (slice m (b + 1) n) (c ∷ s)) (encode_loop (c ∷ s) (writer m b n left))
loop_byte c s m b n left end nz l nf e h more =
    let cur = slice m (b + 1) n in
    let m' = update m (b + suc n) c in
    let cur' = slice_grow m (b + suc n) (b + 1) n c (omega arith) in
    let size = length-slice m (b + 1) n in
    let blocks : cobs cur (c ∷ s) ≡ cobs (slice m' (b + 1) (suc n)) s =
      cobs-byte c cur s nz (omega arith) ∙ ap (λ (x : List ℕ). cobs x s) (sym cur') in
    let rest = cobs_min (slice m' (b + 1) (suc n)) s (suc n) (length-slice m' (b + 1) (suc n)) in
    let total : length (cobs cur (c ∷ s)) ≡ length (cobs (slice m' (b + 1) (suc n)) s) =
      ap length blocks in
    rw
      (
        loop-step c s (writer m b n left) (writer m' b (suc n) (left - 1))
            (step-byte c m b n left nz l nf) (omega arith),
        blocks,
      )
      (grow m m' b end (cobs (slice m' (b + 1) (suc n)) s)
        (encode_loop s (writer m' b (suc n) (left - 1)))
        (λ a o. update_other m (b + suc n) c a (omega arith))
        (λ a o. update_other m (b + suc n) c a (omega arith))
        (more m' (left - 1) (omega arith) (omega arith)))

loop_full :
    (c : ℕ) (s : List ℕ) (m : Bytes) (b n left end : ℕ)
    → c ≢ 0
    → n ≡ 253
    → b + suc n + left ≡ end
    → length (cobs (slice m (b + 1) n) (c ∷ s)) < suc n + left
    → Rest s (b + 255) 0 end
    → Written m b end (cobs (slice m (b + 1) n) (c ∷ s)) (encode_loop (c ∷ s) (writer m b n left))
loop_full c s m b n left end nz f e h more =
    let cur = slice m (b + 1) n in
    let k = update m (b + 254) c in
    let m' = update k b 255 in
    let cur' = slice_grow m (b + 254) (b + 1) n c (omega arith) in
    let size = length-slice m (b + 1) n in
    let blocks = cobs-full c cur s nz (size ∙ f) in
    let rest = cobs_size [] s in
    let total : length (cobs cur (c ∷ s)) ≡ 255 + length (cobs [] s) =
      ap length blocks
      ∙ length-append (255 ∷ (cur ++ (c ∷ []))) (cobs [] s)
      ∙ (let more' = length-append cur (c ∷ []) in omega arith) in
    let step : encode_step c (writer m b n left) ≡ some (writer m' (b + 255) 0 (left - 1 - 1)) =
      rw f (step-full c m b left nz (omega arith)) in
    rw
      (
        loop-step c s (writer m b n left) (writer m' (b + 255) 0 (left - 1 - 1)) step (omega arith),
        blocks,
      )
      (close m m' b 255 end (255 ∷ (cur ++ (c ∷ []))) (cobs [] s)
        (encode_loop s (writer m' (b + 255) 0 (left - 1 - 1)))
        (rw cur' at (
          slice_block k m' b (suc n) 255 255 (omega arith) (update_same k b 255)
            λ a lo hi. update_other k b 255 a (omega arith)))
        (omega arith)
        (λ a o. update_other k b 255 a (omega arith) ∙ update_other m (b + 254) c a (omega arith))
        (λ a o. update_other k b 255 a (omega arith) ∙ update_other m (b + 254) c a (omega arith))
        (more m' (left - 1 - 1) (omega arith) (omega arith)))

-- The loop takes the whole source where the blocks leave a byte of the space free.
pub encode_loop_lem :
    (src : List ℕ) (m : Bytes) (b n left end : ℕ)
    → n ≤ 253
    → b + suc n + left ≡ end
    → length (cobs (slice m (b + 1) n) src) < suc n + left
    → Written m b end (cobs (slice m (b + 1) n) src) (encode_loop src (writer m b n left))
unfolding encode_loop
encode_loop_lem [] m b n left end l e h = rw (← e) (stop m b n left l)
encode_loop_lem (c ∷ s) m b n left end l e h = elim (ℕ_discrete c 0) [
  | yes z ↦
      loop_zero c s m b n left end z e h
        λ m' left' e' h'. encode_loop_lem s m' (b + suc n) 0 left' end (omega arith) e' h'
  | no nz ↦ elim (ℕ_discrete n 253) [
    | yes f ↦
        loop_full c s m b n left end nz f e h
          λ m' left' e' h'. encode_loop_lem s m' (b + 255) 0 left' end (omega arith) e' h'
    | no nf ↦
        loop_byte c s m b n left end nz l nf e h
          λ m' left' e' h'. encode_loop_lem s m' b (suc n) left' end (omega arith) e' h'
  ]
]
