-- ===== src/Convert/Cobs/Blocks.antt =====
-- What the encoder's loop writes, against the blocks of `Reference`.
use mpt_base.Prelude.{ℕ, suc, ◌+◌, ◌-◌, ◌≡◌, ◌≢◌, ◌≤◌, ◌%◌, refl, ap, some, arith, ==-false}
use mpt_base.Prelude.Mem.{Bytes, update}
use mpt_base.Convert.Cobs.{Writer, save, encode_step}

-- A writer whose open block starts at `b` and holds `n` bytes behind its code.
abbrev pub writer : Bytes → (b n left : ℕ) → Writer
writer m b n left = record { mem = m; dst = b + suc n; left = left; code = suc n }

writer-eq :
    (m m' : Bytes) (b n left dst code : ℕ)
    → m' ≡ m
    → dst ≡ b + suc n
    → code ≡ suc n
    → ◌≡◌ {A = Writer}
        (record { mem = m'; dst = dst; left = left; code = code })
        (writer m b n left)
writer-eq m m' b n left dst code p q s =
    λ i. record { mem = p i; dst = q i; left = left; code = s i }

back : (b n : ℕ) → b + suc n - suc n ≡ b
back b n = omega arith

pub save-writer :
    (m : Bytes) (b n left : ℕ) → save (writer m b n left) ≡ writer (update m b (suc n)) b n left
save-writer m b n left = rw (back b n)

pub step-zero :
    (m : Bytes) (b n left : ℕ)
    → encode_step 0 (writer m b n left)
      ≡ some (writer (update m b (suc n)) (b + suc n) 0 (left - 1))
unfolding encode_step
step-zero m b n left = ap some (
    writer-eq (update m b (suc n)) (update m (b + suc n - suc n) (suc n)) (b + suc n) 0 (left - 1)
      (b + suc n + 1) 1 (rw (back b n)) (omega arith) refl)

pub step-byte :
    (c : ℕ) (m : Bytes) (b n left : ℕ)
    → c ≢ 0
    → n ≤ 253
    → n ≢ 253
    → encode_step c (writer m b n left)
      ≡ some (writer (update m (b + suc n) c) b (suc n) (left - 1))
unfolding encode_step
step-byte c m b n left nz le ne =
    let wrap : (suc n + 1) % 256 ≡ suc n + 1 = omega arith in
    rw (==-false c 0 nz, wrap, ==-false (suc n + 1) 255 (omega arith))
      (ap some (
        writer-eq (update m (b + suc n) c) (update m (b + suc n) c) b (suc n) (left - 1)
          (b + suc n + 1) (suc n + 1) refl (omega arith) (omega arith)))

pub step-full :
    (c : ℕ) (m : Bytes) (b left : ℕ)
    → c ≢ 0
    → left - 1 ≢ 0
    → encode_step c (writer m b 253 left)
      ≡ some (writer (update (update m (b + 254) c) b 255) (b + 255) 0 (left - 1 - 1))
unfolding encode_step
step-full c m b left nz ne =
    rw (==-false c 0 nz, ==-false (left - 1) 0 ne)
      (ap some (
        writer-eq (update (update m (b + 254) c) b 255)
          (update (update m (b + 254) c) (b + 254 + 1 - 255) 255) (b + 255) 0 (left - 1 - 1)
          (b + 254 + 1 + 1) 1 (ap (λ (t : ℕ). update (update m (b + 254) c) t 255) (omega arith))
          (omega arith) refl))
