-- ===== src/Node/Order/Place.antt =====
-- mptcore/node/gnode_after.c and gnode_before.c on a chain of nodes.
use mpt_base.Prelude.{
  ℕ, zero, suc, ◌+◌, ◌-◌, ◌<◌, ◌≡◌, refl, sym, ap, ◌∙◌, List, length, arith, ◌⊎◌, inl, inr,
}
use mpt_base.Node.{Store}
use mpt_base.Node.Links.{IsLinked, IsAlone}
use mpt_base.Node.Order.{
  Chain, nth, insert_at, insert_at_front, insert_at_place, insert_at_behind, length-insert_at,
  Chain-member, Chain-first, Chain-build,
}
use mpt_base.Node.Order.Steps.{member_prev}

module _ (s : Store) (xs : List ℕ) (first node i : ℕ) (w : IsLinked s) (a : IsAlone s node)
    (c : Chain s first xs) (f : (s first).prev ≡ 0) (n : ¬ (node ≡ first)) (h : i < length xs) where
  -- A lone node is not a member.
  pub outside : (j : ℕ) → j < length xs → ¬ (node ≡ nth xs j)
  outside zero k e = n (e ∙ Chain-first s xs first c)
  outside (suc j) k e =
      let one_less : suc j - 1 ≡ j = omega arith in
      ground (
        arith,
        member_prev s xs first (suc j) w c f k,
        (Chain-member s xs first j c (omega arith)).0,
        a.no_prev,
        ap (λ q. (s q).prev) e,
        ap (nth xs) one_less,
      )

pub order_cases : (j k : ℕ) → (j < k) ⊎ ((j ≡ k) ⊎ (k < j))
order_cases zero zero = inr (inl refl)
order_cases zero (suc k) = inl (omega arith)
order_cases (suc j) zero = inr (inr (omega arith))
order_cases (suc j) (suc k) = elim (order_cases j k) [
  | inl h ↦ inl (omega arith)
  | inr e ↦ elim e [ inl d ↦ inr (inl (ap suc d)) | inr h ↦ inr (inr (omega arith)) ]
]

-- A store whose links are those of a chain with one more node at the index `k` has that chain.
module _ (s t : Store) (xs : List ℕ) (first node k : ℕ) (c : Chain s first xs) (f : ¬ (node ≡ 0))
    (h : k < length xs + 1)
    (same : (j : ℕ) → j < length xs → ¬ (suc j ≡ k) → (t (nth xs j)).next ≡ nth xs (suc j))
    (link : (j : ℕ) → suc j ≡ k → (t (nth xs j)).next ≡ node) (new : (t node).next ≡ nth xs k) where
  ys : List ℕ
  ys = insert_at k node xs

  IsNext : ℕ → Type 0
  IsNext j = ¬ (nth ys j ≡ 0) × ((t (nth ys j)).next ≡ nth ys (suc j))

  front-IsNext : (j : ℕ) → j < k → IsNext j
  unfolding IsNext ys
  front-IsNext j g = rw (insert_at_front xs k node j h g) (
    (Chain-member s xs first j c (omega arith)).0,
    elim (order_cases (suc j) k) [
      | inl l ↦ rw (insert_at_front xs k node (suc j) h l) (same j (omega arith) (omega arith))
      | inr e ↦ elim e [
        | inl d ↦ link j d ∙ sym (ap (nth (insert_at k node xs)) d ∙ insert_at_place xs k node h)
        | inr l ↦ let none_left : ⊥ = omega arith in elim none_left [ ]
      ]
    ],
  )

  place-IsNext : IsNext k
  unfolding IsNext ys
  place-IsNext =
      rw (insert_at_place xs k node h) (f, new ∙ sym (insert_at_behind xs k node k h (omega arith)))

  behind-IsNext : (j : ℕ) → k < j + 1 → j < length xs → IsNext (suc j)
  unfolding IsNext ys
  behind-IsNext j g l = rw (insert_at_behind xs k node j h g) (
    (Chain-member s xs first j c l).0,
    same j l (omega arith) ∙ sym (insert_at_behind xs k node (suc j) h (omega arith)),
  )

  every-IsNext : (j : ℕ) → j < length ys → IsNext j
  unfolding ys
  every-IsNext zero l = elim (order_cases 0 k) [
    | inl g ↦ front-IsNext 0 g
    | inr e ↦ elim e [
      | inl d ↦ rw d place-IsNext
      | inr g ↦ let none_left : ⊥ = omega arith in elim none_left [ ]
    ]
  ]
  every-IsNext (suc j) l = elim (order_cases (suc j) k) [
    | inl g ↦ front-IsNext (suc j) g
    | inr e ↦ elim e [
      | inl d ↦ rw d place-IsNext
      | inr g ↦ behind-IsNext j (omega arith) (omega (arith, length-insert_at xs k node))
    ]
  ]

  pub inserted-Chain : Chain t (nth (insert_at k node xs) 0) (insert_at k node xs)
  unfolding IsNext ys
  inserted-Chain = Chain-build t ys every-IsNext
