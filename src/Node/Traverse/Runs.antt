-- ===== src/Node/Traverse/Runs.antt =====
-- mptcore/node/gnode_traverse.c: each traversal runs the handler on the events of its order.
use mpt_base.Prelude.{
  ℕ, zero, suc, ◌+◌, ◌<◌, true, false, ◌≡◌, refl, sym, ap, ◌∙◌, ◌==◌, if◌then◌else◌, List, [], ◌∷◌,
  ◌++◌, done, fault, arith, Bool-cases, inl, inr,
}
use mpt_base.Node.{Store}
use mpt_base.Node.Traverse.{
  Handler, Filter, Walk, then_on, visit, traverse_pre, list_pre, traverse_post, list_post,
  traverse_in, list_in, gnode_traverse, Order, post_order, pre_order, in_order, level_order,
}
use mpt_base.Node.Traverse.Events.{
  Forest, empty, tree, size, Holds, Event, has_none, here, pre_events, post_events, in_events, step,
  run, events,
}

module _ {ℓ} {A : Type ℓ} where
  then_on_go :
      (a : A) (node : ℕ) (k : A → Walk A) → (node == 0) ≡ true → then_on (done (a, node)) k ≡ k a
  then_on_go a node k e = λ i. elim (e i) [ true ↦ k a | false ↦ done (a, node) ]

  then_on_stop :
      (a : A) (node : ℕ) (k : A → Walk A)
      → (node == 0) ≡ false
      → then_on (done (a, node)) k ≡ done (a, node)
  then_on_stop a node k e = λ i. elim (e i) [ true ↦ k a | false ↦ done (a, node) ]

  then_on_assoc :
      (w : Walk A) (k l : A → Walk A) → then_on (then_on w k) l ≡ then_on w (λ b. then_on (k b) l)
  then_on_assoc fault k l = refl
  then_on_assoc (done (a, node)) k l = elim (Bool-cases (node == 0)) [
    | inl e ↦
        ap (λ v. then_on v l) (then_on_go a node k e)
        ∙ sym (then_on_go a node (λ b. then_on (k b) l) e)
    | inr e ↦
        ap (λ v. then_on v l) (then_on_stop a node k e)
        ∙ (then_on_stop a node l e ∙ sym (then_on_stop a node (λ b. then_on (k b) l) e))
  ]

module _ {ℓ} {A : Type ℓ} (flags : Filter) (traverse : Handler A) where
  run-append :
      (xs ys : List Event) (a : A)
      → run flags traverse (xs ++ ys) a
        ≡ then_on (run flags traverse xs a) (λ b. run flags traverse ys b)
  run-append [] ys a = refl
  run-append (x ∷ xs) ys a =
      (λ i. then_on (step flags traverse x a) (λ b. run-append xs ys b i))
      ∙ sym (
          then_on_assoc (step flags traverse x a) (λ b. run flags traverse xs b)
            (λ b. run flags traverse ys b))

  module _ (s : Store) where
    null_leaf : (p : ℕ) (c : Forest) → Holds s p c → (p == 0) ≡ has_none c
    null_leaf p empty h = ground (arith, h)
    null_leaf p (tree x c r) h = ground (arith, h.1)

    visit-step :
        (p x : ℕ) (c : Forest) (d : ℕ) (a : A)
        → p ≡ x
        → Holds s (s p).children c
        → visit flags traverse s p d a ≡ step flags traverse (here x c d) a
    visit-step p x c d a e h = λ i.
        elim (if null_leaf (s p).children c h i then flags.leafs else flags.non_leafs) [
          | true ↦ (let r = traverse a (e i) d in done (r.0, if r.1 then e i else 0))
          | false ↦ done (a, 0)
        ]

    list_pre-run :
        (f : Forest) (fuel p d : ℕ) (a : A)
        → Holds s p f
        → size f + size f < fuel
        → list_pre flags traverse s fuel p d a ≡ run flags traverse (pre_events f d) a
    unfolding list_pre
    list_pre-run f zero p d a h g = let none_left : ⊥ = omega arith in elim none_left [ ]
    list_pre-run empty (suc fuel) p d a h g = λ i. elim (null_leaf p empty h i) [
      | true ↦ done (a, 0)
      | false ↦
          then_on (traverse_pre flags traverse s fuel p d a)
            (λ b. list_pre flags traverse s fuel (s p).next d b)
    ]
    list_pre-run (tree x c r) (suc zero) p d a h g =
        let none_left : ⊥ = omega arith in elim none_left [ ]
    list_pre-run (tree x c r) (suc (suc fuel)) p d a h g =
        (λ i. elim (null_leaf p (tree x c r) h i) [
          | true ↦ done (a, 0)
          | false ↦
              then_on
                (then_on (visit-step p x c d a h.0 h.2 i)
                  (λ b. list_pre-run c fuel (s p).children (d + 1) b h.2 (omega arith) i))
                (λ b. list_pre-run r (suc fuel) (s p).next d b h.3 (omega arith) i)
        ])
        ∙ (then_on_assoc (step flags traverse (here x c d) a)
              (λ b. run flags traverse (pre_events c (d + 1)) b)
              (λ b. run flags traverse (pre_events r d) b)
            ∙ sym (λ i.
              then_on (step flags traverse (here x c d) a)
                (λ b. run-append (pre_events c (d + 1)) (pre_events r d) b i)))

    list_post-run :
        (f : Forest) (fuel p d : ℕ) (a : A)
        → Holds s p f
        → size f + size f < fuel
        → list_post flags traverse s fuel p d a ≡ run flags traverse (post_events f d) a
    unfolding list_post
    list_post-run f zero p d a h g = let none_left : ⊥ = omega arith in elim none_left [ ]
    list_post-run empty (suc fuel) p d a h g = λ i. elim (null_leaf p empty h i) [
      | true ↦ done (a, 0)
      | false ↦
          then_on (traverse_post flags traverse s fuel p d a)
            (λ b. list_post flags traverse s fuel (s p).next d b)
    ]
    list_post-run (tree x c r) (suc zero) p d a h g =
        let none_left : ⊥ = omega arith in elim none_left [ ]
    list_post-run (tree x c r) (suc (suc fuel)) p d a h g =
        (λ i. elim (null_leaf p (tree x c r) h i) [
          | true ↦ done (a, 0)
          | false ↦
              then_on
                (then_on (list_post-run c fuel (s p).children (d + 1) a h.2 (omega arith) i)
                  (λ b. visit-step p x c d b h.0 h.2 i))
                (λ b. list_post-run r (suc fuel) (s p).next d b h.3 (omega arith) i)
        ])
        ∙ (then_on_assoc (run flags traverse (post_events c (d + 1)) a)
              (λ b. step flags traverse (here x c d) b)
              (λ b. run flags traverse (post_events r d) b)
            ∙ sym (run-append (post_events c (d + 1)) (here x c d ∷ post_events r d) a))

    -- One node in order, and a list of nodes in order.
    mutual
      unfolding list_in

      traverse_in-run :
          (x : ℕ) (c : Forest) (fuel p d : ℕ) (a : A)
          → p ≡ x
          → Holds s (s p).children c
          → size c + size c + 1 < fuel
          → traverse_in flags traverse s fuel p d a
            ≡ run flags traverse (in_events (here x c d ∷ []) c (d + 1)) a
      traverse_in-run x c zero p d a e h g = let none_left : ⊥ = omega arith in elim none_left [ ]
      traverse_in-run x c (suc zero) p d a e h g =
          let none_left : ⊥ = omega arith in elim none_left [ ]
      traverse_in-run x empty (suc (suc fuel)) p d a e h g = λ i.
          elim (null_leaf (s p).children empty h i) [
            | true ↦ then_on (visit-step p x empty d a e h i) (λ b. done (b, 0))
            | false ↦
                then_on (traverse_in flags traverse s (suc fuel) (s p).children (d + 1) a) (λ b.
                  then_on (visit flags traverse s p d b)
                    (λ c. list_in flags traverse s (suc fuel) (s (s p).children).next (d + 1) c))
          ]
      traverse_in-run x (tree y c q) (suc (suc fuel)) p d a e h g =
          (λ i. elim (null_leaf (s p).children (tree y c q) h i) [
            | true ↦ then_on (visit flags traverse s p d a) (λ b. done (b, 0))
            | false ↦
                then_on
                  (traverse_in-run y c (suc fuel) (s p).children (d + 1) a h.0 h.2 (omega arith) i)
                  (λ b. then_on (visit-step p x (tree y c q) d b e h i) (λ b'.
                    list_in-run q (suc fuel) (s (s p).children).next (d + 1) b' h.3 (omega arith)
                      i))
          ])
          ∙ sym (
              run-append (in_events (here y c (d + 1) ∷ []) c (d + 1 + 1))
                (here x (tree y c q) d ∷ in_events [] q (d + 1)) a)

      list_in-run :
          (f : Forest) (fuel p d : ℕ) (a : A)
          → Holds s p f
          → size f + size f < fuel
          → list_in flags traverse s fuel p d a ≡ run flags traverse (in_events [] f d) a
      list_in-run f zero p d a h g = let none_left : ⊥ = omega arith in elim none_left [ ]
      list_in-run empty (suc fuel) p d a h g = λ i. elim (null_leaf p empty h i) [
        | true ↦ done (a, 0)
        | false ↦
            then_on (traverse_in flags traverse s fuel p d a)
              (λ b. list_in flags traverse s fuel (s p).next d b)
      ]
      list_in-run (tree x c r) (suc zero) p d a h g =
          let none_left : ⊥ = omega arith in elim none_left [ ]
      list_in-run (tree x c r) (suc (suc fuel)) p d a h g =
          (λ i. elim (null_leaf p (tree x c r) h i) [
            | true ↦ done (a, 0)
            | false ↦
                then_on (traverse_in-run x c (suc fuel) p d a h.0 h.2 (omega arith) i)
                  (λ b. list_in-run r (suc fuel) (s p).next d b h.3 (omega arith) i)
          ])
          ∙ sym (run-append (in_events (here x c d ∷ []) c (d + 1)) (in_events [] r d) a)

-- The test for a node at all, in front of a traversal.
started {ℓ} :
    {A : Type ℓ} (flags : Filter) (traverse : Handler A) (s : Store) (node : ℕ) (f : Forest)
    (es : Forest → List Event) (a : A) (w : Walk A)
    → es empty ≡ []
    → Holds s node f
    → w ≡ run flags traverse (es f) a
    → elim (node == 0) [ true ↦ done (a, 0) | false ↦ w ] ≡ run flags traverse (es f) a
started flags traverse s node empty es a w e h k =
    (λ i. elim (null_leaf flags traverse s node empty h i) [ true ↦ done (a, 0) | false ↦ w ])
    ∙ sym (ap (λ u. run flags traverse u a) e)
started flags traverse s node (tree x c r) es a w e h k =
    (λ i. elim (null_leaf flags traverse s node (tree x c r) h i) [
      | true ↦ done (a, 0)
      | false ↦ w
    ])
    ∙ k

-- With fuel for twice the nodes of a forest, `mpt_gnode_traverse` in post-order, pre-order and
-- in-order calls the handler on the nodes of the forest in that order, with their depth, those of
-- the filter only, and returns the node at which the handler stops.
pub gnode_traverse_lem {ℓ} :
    {A : Type ℓ} (order : Order) (flags : Filter) (traverse : Handler A) (s : Store) (f : Forest)
    (fuel node : ℕ) (a : A)
    → ¬ (order ≡ level_order)
    → Holds s node f
    → size f + size f < fuel
    → gnode_traverse order flags traverse s fuel node a ≡ run flags traverse (events order f) a
unfolding gnode_traverse
gnode_traverse_lem level_order flags traverse s f fuel node a o h g = elim (o refl) [ ]
gnode_traverse_lem post_order flags traverse s f fuel node a o h g =
    started flags traverse s node f (λ u. post_events u 0) a
      (list_post flags traverse s fuel node 0 a) refl h
      (list_post-run flags traverse s f fuel node 0 a h g)
gnode_traverse_lem pre_order flags traverse s f fuel node a o h g =
    started flags traverse s node f (λ u. pre_events u 0) a
      (list_pre flags traverse s fuel node 0 a) refl h
      (list_pre-run flags traverse s f fuel node 0 a h g)
gnode_traverse_lem in_order flags traverse s f fuel node a o h g =
    started flags traverse s node f (λ u. in_events [] u 0) a
      (list_in flags traverse s fuel node 0 a) refl h
      (list_in-run flags traverse s f fuel node 0 a h g)
