-- ===== src/Convert/Cobs/Sizes.antt =====
-- The equations of the blocks and their size.
use mpt_base.Prelude.{
  ℕ, suc, ◌+◌, ◌≤◌, ◌≡◌, ◌≢◌, ap, List, [], ◌∷◌, ◌++◌, length, length-append, arith, ==-false, refl,
}
use native.Mathlib.Decide.{ℕ_discrete}
use mpt_base.Convert.Cobs.Reference.{cobs}

pub cobs-end : (cur : List ℕ) (n : ℕ) → length cur ≡ n → cobs cur [] ≡ suc n ∷ cur
unfolding cobs
cobs-end cur n e = rw e (ap (λ (k : ℕ). k ∷ cur) (omega arith))

pub cobs-zero :
    (cur s : List ℕ) (n : ℕ) → length cur ≡ n → cobs cur (0 ∷ s) ≡ (suc n ∷ cur) ++ cobs [] s
unfolding cobs
cobs-zero cur s n e = rw e (ap (λ (k : ℕ). k ∷ (cur ++ cobs [] s)) (omega arith))

pub cobs-byte :
    (c : ℕ) (cur s : List ℕ)
    → c ≢ 0
    → length cur ≢ 253
    → cobs cur (c ∷ s) ≡ cobs (cur ++ (c ∷ [])) s
unfolding cobs
cobs-byte c cur s nz ne = rw (==-false c 0 nz, ==-false (length cur) 253 ne) refl

pub cobs-full :
    (c : ℕ) (cur s : List ℕ)
    → c ≢ 0
    → length cur ≡ 253
    → cobs cur (c ∷ s) ≡ (255 ∷ (cur ++ (c ∷ []))) ++ cobs [] s
unfolding cobs
cobs-full c cur s nz e = rw (==-false c 0 nz, e) refl

-- A code byte and the open block at least.
pub cobs_size : (cur src : List ℕ) → length cur + 1 ≤ length (cobs cur src)
cobs_size cur [] = rw (cobs-end cur (length cur) refl) (omega arith)
cobs_size cur (c ∷ s) = elim (ℕ_discrete c 0) [
  | yes z ↦
      rw (z, cobs-zero cur s (length cur) refl, length-append (suc (length cur) ∷ cur) (cobs [] s))
        (omega arith)
  | no nz ↦ elim (ℕ_discrete (length cur) 253) [
    | yes f ↦
        rw
          (
            cobs-full c cur s nz f,
            length-append (255 ∷ (cur ++ (c ∷ []))) (cobs [] s),
            length-append cur (c ∷ []),
          )
          (omega arith)
    | no nf ↦
        let ih = cobs_size (cur ++ (c ∷ [])) s in
        let e = length-append cur (c ∷ []) in rw (cobs-byte c cur s nz nf) (omega arith)
  ]
]

pub cobs_min : (cur src : List ℕ) (n : ℕ) → length cur ≡ n → n + 1 ≤ length (cobs cur src)
cobs_min cur src n e = rw e at (cobs_size cur src)
