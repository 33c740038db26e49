-- ===== src/Convert/Cobs/Decode/Whole.antt =====
-- The decoder on a whole message in one element, against the decoder of `Reference`.
use mpt_base.Prelude.{
  ℕ, zero, suc, ◌+◌, ◌-◌, ◌<◌, ◌≤◌, ◌≡◌, ◌≢◌, refl, ◌∙◌, List, [], ◌∷◌, ◌++◌, Bool, true, false,
  some, length, ◌==◌, if◌then◌else◌, arith, ok, Run, done, inl, inr, Option-cases,
}
use native.Mathlib.Decide.{ℕ_discrete}
use mpt_base.Prelude.Mem.{Bytes, update}
use mpt_base.Prelude.Slice.{slice, slice_congr}
use mpt_base.Convert.Cobs.Reference.{unblock}
use mpt_base.Convert.Cobs.Decode.{DecodeState, Decoded}
use mpt_base.Convert.Cobs.Decode.Step.{reader, loop, loop-data, loop-plain, loop-zero, loop-end}

-- Values of bytes.
abbrev pub AreBytes : List ℕ → Type 0
AreBytes [] = Unit {0}
AreBytes (c ∷ r) = (c < 256) × AreBytes r

-- A message of `l` bytes at `start`, with `g` bytes between it and the encoded data.
abbrev pub ended : (start : ℕ) → Bytes → (l g : ℕ) → Decoded
ended start m l g = record {
  result = ok 1;
  state = record { ctx = 0; curr = start + l + g; pos = start; len = l; msg = some l };
  mem = m;
}

-- What the loop ends with for the message `y`: its bytes stand at `t`, what is below or from `end`
-- on is as before, and the encoded data behind the terminator starts at `end`.
pub record Delivers (m : Bytes) (t end l : ℕ) (start : ℕ) (y : List ℕ) (r : Run Decoded)
    : Type 0 where
  pub mem : Bytes
  pub gap : ℕ
  pub size : ℕ
  pub is : r ≡ done (ended start mem size gap)
  pub count : size ≡ l + length y
  pub place : t + length y + gap ≡ end
  pub holds : slice mem t (length y) ≡ y
  pub below : (a : ℕ) → a < t → mem a ≡ m a
  pub above : (a : ℕ) → end ≤ a → mem a ≡ m a

-- A byte written in front of the rest of the message.
cons :
    (m : Bytes) (t end l start v : ℕ) (y : List ℕ) (r : Run Decoded)
    → t < end
    → Delivers (update m t v) (t + 1) end (l + 1) start y r
    → Delivers m t end l start (v ∷ y) r
cons m t end l start v y r h w =
    let at_ : t + suc (length y) ≡ t + 1 + length y = omega arith in
    let count = w.count in
    let first : w.mem t ≡ v = w.below t (omega arith) ∙ ground arith in
    record {
      mem = w.mem;
      gap = w.gap;
      size = w.size;
      is = w.is;
      count = omega arith;
      place = rw at_ w.place;
      holds = rw (first, w.holds) refl;
      below = λ a o. w.below a (omega arith) ∙ ground arith;
      above = λ a o. w.above a o ∙ ground arith;
    }

unblock-nil : (full : Bool) (y : List ℕ) → unblock 0 full [] ≡ some y → y ≡ []
unfolding unblock
unblock-nil full y e = cc

unblock-code :
    (full : Bool) (x : ℕ) (r y : List ℕ)
    → unblock 0 full (x ∷ r) ≡ some y
    → (x ≢ 0)
      × (y' : List ℕ) × (unblock (x - 1) (x == 255) r ≡ some y')
      × (y ≡ (if full then y' else 0 ∷ y'))
unfolding unblock
unblock-code full x r y e = elim (ℕ_discrete x 0) [
  | yes z ↦ absurd (ground arith)
  | no nz ↦ elim (Option-cases (unblock (x - 1) (x == 255) r)) [
    | inl h ↦ absurd (ground arith)
    | inr (y', h) ↦ (nz, y', h, ground arith)
  ]
]

unblock-data :
    (n : ℕ) (full : Bool) (x : ℕ) (r y : List ℕ)
    → unblock (suc n) full (x ∷ r) ≡ some y
    → (x ≢ 0) × (y' : List ℕ) × (unblock n full r ≡ some y') × (y ≡ x ∷ y')
unfolding unblock
unblock-data n full x r y e = elim (ℕ_discrete x 0) [
  | yes z ↦ absurd (ground arith)
  | no nz ↦ elim (Option-cases (unblock n full r)) [
    | inl h ↦ absurd (ground arith)
    | inr (y', h) ↦ (nz, y', h, ground arith)
  ]
]

unblock-short : (n : ℕ) (full : Bool) (y : List ℕ) → unblock (suc n) full [] ≢ some y
unfolding unblock
unblock-short n full y e = cc

-- The first byte of a range, and the others.
pub slice-head :
    (m : Bytes) (a n x : ℕ) (r : List ℕ)
    → slice m a (suc n) ≡ x ∷ r
    → (m a ≡ x) × (slice m (a + 1) n ≡ r)
slice-head m a n x r e = (cc, cc)

-- Bytes written below a range are not in it.
slice-update :
    (m : Bytes) (t v a a' n : ℕ) → a' ≡ a → t < a → slice (update m t v) a' n ≡ slice m a n
slice-update m t v a a' n e h = rw e (slice_congr (update m t v) m a n λ b lo hi. ground arith)

module _ (start : ℕ) (s : DecodeState) where
  frame_end :
      (y : List ℕ) (fuel : ℕ) (m : Bytes) (t g k l c p end : ℕ)
      → m (t + g) ≡ 0
      → y ≡ []
      → c ≢ 0
      → p ≡ c - 1
      → 0 < fuel
      → end ≡ t + g + 1
      → Delivers m t end l start y (loop start s (suc fuel) (reader m t g (suc k) l c p))
  frame_end y zero m t g k l c p end z e nz np hf q = absurd (omega arith)
  frame_end y (suc fuel) m t g k l c p end z e nz np hf q = rw e (record {
    mem = m;
    gap = g + 1;
    size = l;
    count = omega arith;
    is =
        loop-plain start s (suc fuel) m t g k l c p nz np (inr z)
        ∙ loop-end start s fuel (reader m t (g + 1) k l (m (t + g)) 0) z;
    place = omega arith;
    holds = refl;
    below = λ a o. refl;
    above = λ a o. refl;
  })

  frame_code :
      (full : Bool) (x : ℕ) (r y' y : List ℕ) (fuel : ℕ) (m : Bytes) (t g k l c p end : ℕ)
      → m (t + g) ≡ x
      → x ≢ 0
      → y ≡ (if full then y' else 0 ∷ y')
      → c ≢ 0
      → c < 256
      → p ≡ c - 1
      → full ≡ (c == 255)
      → 0 < g
      → t + g < end
      → ((m' : Bytes) (t' g' l' : ℕ)
          → 0 < g'
          → t' + g' ≡ t + g + 1
          → slice m' (t' + g') (suc (length r)) ≡ slice m (t + g + 1) (suc (length r))
          → Delivers m' t' end l' start y' (loop start s fuel (reader m' t' g' k l' x 0)))
      → Delivers m t end l start y (loop start s (suc fuel) (reader m t g (suc k) l c p))
  frame_code true x r y' y fuel m t g k l c p end read nx is nz by np f g' h more =
      let last : c ≡ 255 = ground arith in
      let at_ : t + (g + 1) ≡ t + g + 1 = omega arith in
      rw (is, loop-plain start s fuel m t g k l c p nz np (inl last), read)
        (more m t (g + 1) l (omega arith) at_ (rw at_ refl))
  frame_code false x r y' y fuel m t g k l c p end read nx is nz by np f g' h more =
      let short : c < 255 = ground arith in
      rw (is, loop-zero start s fuel m t g k l c p g' nz np short (rw read nx), read)
        (cons m t end l start 0 y'
          (loop start s fuel (reader (update m t 0) (t + 1) g k (l + 1) x 0)) (omega arith)
          (more (update m t 0) (t + 1) g (l + 1) g' (omega arith) (
            slice-update m t 0 (t + g + 1) (t + 1 + g) (suc (length r)) (omega arith)
              (omega arith))))

  -- From any place of a block on.
  pub decode_frame :
      (r y : List ℕ) (n : ℕ) (full : Bool) (fuel : ℕ) (m : Bytes) (t g k l c p end : ℕ)
      → AreBytes r
      → slice m (t + g) (suc (length r)) ≡ r ++ (0 ∷ [])
      → unblock n full r ≡ some y
      → length r < k
      → 0 < g
      → c ≢ 0
      → c < 256
      → n + p ≡ c - 1
      → full ≡ (c == 255)
      → length r + 1 < fuel
      → end ≡ t + g + suc (length r)
      → Delivers m t end l start y (loop start s fuel (reader m t g k l c p))
  decode_frame r y n full fuel m t g zero l c p end b e u h g' nz by np f hf q =
      absurd (omega arith)
  decode_frame r y n full zero m t g k l c p end b e u h g' nz by np f hf q = absurd (omega arith)
  decode_frame [] y zero full (suc fuel) m t g (suc k) l c p end b e u h g' nz by np f hf q =
      frame_end y fuel m t g k l c p end (slice-head m (t + g) 0 0 [] e).0 (unblock-nil full y u) nz
        (omega arith) (omega arith) (omega arith)
  decode_frame (x ∷ r) y zero full (suc fuel) m t g (suc k) l c p end b e u h g' nz by np f hf q =
      let (read, rest) = slice-head m (t + g) (suc (length r)) x (r ++ (0 ∷ [])) e in
      let (nx, y', u', is) = unblock-code full x r y u in
      frame_code full x r y' y fuel m t g k l c p end read nx is nz by (omega arith) f g'
        (omega arith)
        λ m' t' g'' l' pos place same.
          decode_frame r y' (x - 1) (x == 255) fuel m' t' g'' k l' x 0 end b.1 (same ∙ rest) u'
            (omega arith) pos nx b.0 (omega arith) refl (omega arith) (omega arith)
  decode_frame [] y (suc n) full fuel m t g k l c p end b e u h g' nz by np f hf q =
      absurd (unblock-short n full y u)
  decode_frame (x ∷ r) y (suc n) full (suc fuel) m t g (suc k) l c p end b e u h g' nz by np f hf
        q =
      let (read, rest) = slice-head m (t + g) (suc (length r)) x (r ++ (0 ∷ [])) e in
      let (nx, y', u', is) = unblock-data n full x r y u in
      rw (is, loop-data start s fuel m t g k l c p g' nz (omega arith) (rw read nx), read)
        (cons m t end l start x y'
          (loop start s (suc fuel) (reader (update m t x) (t + 1) g k (l + 1) c (p + 1)))
          (omega arith)
          (decode_frame r y' n full (suc fuel) (update m t x) (t + 1) g k (l + 1) c (p + 1) end b.1
            (slice-update m t x (t + g + 1) (t + 1 + g) (suc (length r)) (omega arith) (omega arith)
              ∙ rest)
            u' (omega arith) g' nz by (omega arith) f (omega arith) (omega arith)))
