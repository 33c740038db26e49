-- ===== src/Prelude/Slice.antt =====
-- The bytes of a range of memory as a list.
use Prim.Native.Nat.{ℕ, zero, suc, ◌+◌, ◌≤◌, ◌<◌}
use mathlib.Core.Path.{◌≡◌, refl, ap}
use mathlib.Core.List.{List, [], ◌∷◌, ◌++◌}
use native.Mathlib.Omega.{arith}
use mpt_base.Prelude.Lists.{length}
use mpt_base.Prelude.Mem.{Bytes}

abbrev pub slice : Bytes → ℕ → ℕ → List ℕ
slice m a zero = []
slice m a (suc n) = m a ∷ slice m (a + 1) n

pub length-slice : (m : Bytes) (a n : ℕ) → length (slice m a n) ≡ n
length-slice m a zero = refl
length-slice m a (suc n) = ap suc (length-slice m (a + 1) n)

-- Memory that agrees on the range gives the same list.
pub slice_congr :
    (m k : Bytes) (a n : ℕ) → ((b : ℕ) → a ≤ b → b < a + n → m b ≡ k b) → slice m a n ≡ slice k a n
slice_congr m k a zero h = refl
slice_congr m k a (suc n) h = rw (h a (omega arith) (omega arith)) (
    ap (λ (r : List ℕ). k a ∷ r)
      (slice_congr m k (a + 1) n λ b lo hi. h b (omega arith) (omega arith)))

pub slice-append : (m : Bytes) (a n k : ℕ) → slice m a (n + k) ≡ slice m a n ++ slice m (a + n) k
slice-append m a zero k =
    let e : 0 + k ≡ k = omega arith in let f : a + 0 ≡ a = omega arith in rw (e, f)
slice-append m a (suc n) k =
    let e : suc n + k ≡ suc (n + k) = omega arith in
    let f : a + suc n ≡ a + 1 + n = omega arith in
    rw (e, f) (ap (λ (r : List ℕ). m a ∷ r) (slice-append m (a + 1) n k))

pub slice_last : (m : Bytes) (a n : ℕ) → slice m a (suc n) ≡ slice m a n ++ (m (a + n) ∷ [])
slice_last m a n = let e : n + 1 ≡ suc n = omega arith in rw e at (slice-append m a n 1)
