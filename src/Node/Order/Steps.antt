-- ===== src/Node/Order/Steps.antt =====
-- mptcore/node/gnode_pos.c on a chain of nodes.
use mpt_base.Prelude.{
  ℕ, zero, suc, ◌-◌, ◌<◌, ◌≡◌, refl, sym, ap, ◌∙◌, List, [], ◌∷◌, length, arith, ltb, ◌==◌,
  if◌then◌else◌, done,
}
use mpt_base.Prelude.Int.{pos, negsuc}
use mpt_base.Node.{Store, steps_back, steps_on, list_end, gnode_pos}
use mpt_base.Node.Links.{IsLinked}
use mpt_base.Node.Order.{Chain, nth, Chain-member, Chain-first}

steps_on-nth : (s : Store) (xs : List ℕ) (p k : ℕ) → Chain s p xs → steps_on s k p ≡ nth xs k
unfolding steps_on
steps_on-nth s xs p zero c = sym (Chain-first s xs p c)
steps_on-nth s [] p (suc k) c = ground (arith, c)
steps_on-nth s (x ∷ xs) p (suc k) c = ground (arith, c.1, steps_on-nth s xs (s p).next k c.2)

list_end-nth :
    (s : Store) (x : ℕ) (xs : List ℕ) (fuel p : ℕ)
    → Chain s p (x ∷ xs)
    → length xs < fuel
    → list_end s fuel p ≡ done (nth (x ∷ xs) (length xs))
unfolding list_end
list_end-nth s x xs zero p c h = ground arith
list_end-nth s x [] (suc fuel) p c h = ground (arith, c.2, c.0)
list_end-nth s x (y ∷ xs) (suc fuel) p c h =
    ground (arith, c.2.1, list_end-nth s y xs fuel (s p).next c.2 (omega arith))

back_null : (s : Store) (k : ℕ) → steps_back s k 0 ≡ 0
unfolding steps_back
back_null s zero = refl
back_null s (suc k) = refl

-- The first member has none in front, and each other has its predecessor.
pub member_prev :
    (s : Store) (xs : List ℕ) (p i : ℕ)
    → IsLinked s
    → Chain s p xs
    → (s p).prev ≡ 0
    → i < length xs
    → (s (nth xs i)).prev ≡ (if i == 0 then 0 else nth xs (i - 1))
member_prev s xs p zero w c f h = rw (Chain-first s xs p c) (ground (arith, f))
member_prev s xs p (suc i) w c f h =
    let m = Chain-member s xs p i c (omega arith) in
    let e : (s (s (nth xs i)).next).prev ≡ nth xs i =
      w.next_back (nth xs i) m.0 (λ z. (Chain-member s xs p (suc i) c h).0 (sym m.1 ∙ z)) in
    let g : suc i - 1 ≡ i = omega arith in
    ground (arith, e, ap (nth xs) g, ap (λ q. (s q).prev) m.1)

steps_back-nth :
    (s : Store) (xs : List ℕ) (p k i : ℕ)
    → IsLinked s
    → Chain s p xs
    → (s p).prev ≡ 0
    → i < length xs
    → steps_back s k (nth xs i) ≡ (if ltb i k then 0 else nth xs (i - k))
unfolding steps_back
steps_back-nth s xs p zero i w c f h = ground arith
steps_back-nth s xs p (suc k) zero w c f h = ground (
  arith,
  member_prev s xs p 0 w c f h,
  back_null s k,
  ap (steps_back s k) (member_prev s xs p 0 w c f h),
)
steps_back-nth s xs p (suc k) (suc i) w c f h = ground (
  arith,
  (Chain-member s xs p (suc i) c h).0,
  ap (steps_back s k) (member_prev s xs p (suc i) w c f h),
  steps_back-nth s xs p k i w c f (omega arith),
)

module _ (fuel : ℕ) (s : Store) (x : ℕ) (xs : List ℕ) (p : ℕ) (c : Chain s p (x ∷ xs)) where
  -- Position 0 is the last node, positions from 1 count from the first.
  pub gnode_pos_last :
      length xs < fuel → gnode_pos fuel s p (pos 0) ≡ done (nth (x ∷ xs) (length xs))
  unfolding gnode_pos
  gnode_pos_last h = ground (arith, c.1, list_end-nth s x xs fuel p c h)

  pub gnode_pos_from_first : (k : ℕ) → gnode_pos fuel s p (pos (suc k)) ≡ done (nth (x ∷ xs) k)
  unfolding gnode_pos
  gnode_pos_from_first k = ground (arith, c.1, steps_on-nth s (x ∷ xs) p k c)

-- Negative positions count back from a member.
pub gnode_pos_back :
    (fuel : ℕ) (s : Store) (xs : List ℕ) (p k i : ℕ)
    → IsLinked s
    → Chain s p xs
    → (s p).prev ≡ 0
    → i < length xs
    → gnode_pos fuel s (nth xs i) (negsuc k)
      ≡ done (if ltb i (suc k) then 0 else nth xs (i - suc k))
unfolding gnode_pos
gnode_pos_back fuel s xs p k i w c f h =
    ground (arith, (Chain-member s xs p i c h).0, steps_back-nth s xs p (suc k) i w c f h)
