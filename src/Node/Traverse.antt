-- ===== src/Node/Traverse.antt =====
-- mptcore/node/gnode_traverse.c and gnode_level.c: the ways through a tree of nodes. The function
-- that is called for each node is a parameter that does not change the nodes; its state is the
-- `data` argument.
pub mod Events
pub mod Runs
use mpt_base.Prelude.{
  ℕ, zero, suc, ◌+◌, ◌-◌, Bool, true, false, not, ◌||◌, ◌==◌, if◌then◌else◌, Run, done, fault,
  ◌>>=◌,
}
use mpt_base.Node.{Store}

-- `node_handler`: true to stop.
abbrev pub Handler {ℓ} : Type ℓ → Type ℓ
Handler A = A → (node depth : ℕ) → A × Bool

-- `TraverseLeafs` and `TraverseNonLeafs`
pub record Filter : Type 0 where
  pub leafs : Bool
  pub non_leafs : Bool

-- The node for which the traversal stopped, or null, with the state of the handler.
abbrev pub Walk {ℓ} : Type ℓ → Type ℓ
Walk A = Run (A × ℕ)

-- On with the traversal if no node has stopped it.
abbrev pub then_on {ℓ} : {A : Type ℓ} → Walk A → (A → Walk A) → Walk A
then_on (done (a, node)) k = elim (node == 0) [ true ↦ k a | false ↦ done (a, node) ]
then_on fault k = fault

-- `MPT_traverse_curr` and the call of the handler.
abbrev pub visit {ℓ} : {A : Type ℓ} → Filter → Handler A → Store → (node depth : ℕ) → A → Walk A
visit flags traverse s node depth a =
    elim (if (s node).children == 0 then flags.leafs else flags.non_leafs) [
      | true ↦ (let r = traverse a node depth in done (r.0, if r.1 then node else 0))
      | false ↦ done (a, 0)
    ]

module _ {ℓ} {A : Type ℓ} (flags : Filter) (traverse : Handler A) (s : Store) where
  unfoldable mutual
    -- `_mpt_gnode_traverse_pre`, and its loop over a list of nodes.
    pub traverse_pre : (fuel node depth : ℕ) → A → Walk A
    traverse_pre zero node depth a = fault
    traverse_pre (suc fuel) node depth a =
        then_on (visit flags traverse s node depth a)
          (λ b. list_pre fuel (s node).children (depth + 1) b)

    pub list_pre : (fuel node depth : ℕ) → A → Walk A
    list_pre zero node depth a = fault
    list_pre (suc fuel) node depth a = elim (node == 0) [
      | true ↦ done (a, 0)
      | false ↦ then_on (traverse_pre fuel node depth a) (λ b. list_pre fuel (s node).next depth b)
    ]

  unfoldable mutual
    -- `_mpt_gnode_traverse_post`
    pub traverse_post : (fuel node depth : ℕ) → A → Walk A
    traverse_post zero node depth a = fault
    traverse_post (suc fuel) node depth a =
        then_on (list_post fuel (s node).children (depth + 1) a)
          (λ b. visit flags traverse s node depth b)

    pub list_post : (fuel node depth : ℕ) → A → Walk A
    list_post zero node depth a = fault
    list_post (suc fuel) node depth a = elim (node == 0) [
      | true ↦ done (a, 0)
      | false ↦
          then_on (traverse_post fuel node depth a) (λ b. list_post fuel (s node).next depth b)
    ]

  unfoldable mutual
    -- `_mpt_gnode_traverse_in`
    pub traverse_in : (fuel node depth : ℕ) → A → Walk A
    traverse_in zero node depth a = fault
    traverse_in (suc fuel) node depth a = elim ((s node).children == 0) [
      | true ↦ then_on (visit flags traverse s node depth a) (λ b. list_in fuel 0 (depth + 1) b)
      | false ↦ then_on (traverse_in fuel (s node).children (depth + 1) a) (λ b.
          then_on (visit flags traverse s node depth b)
            (λ c. list_in fuel (s (s node).children).next (depth + 1) c))
    ]

    pub list_in : (fuel node depth : ℕ) → A → Walk A
    list_in zero node depth a = fault
    list_in (suc fuel) node depth a = elim (node == 0) [
      | true ↦ done (a, 0)
      | false ↦ then_on (traverse_in fuel node depth a) (λ b. list_in fuel (s node).next depth b)
    ]

-- `mpt_gnode_samelevel`, with the loop on the level above.
module _ (s : Store) where
  unfoldable mutual
    pub samelevel : (fuel start up : ℕ) → Run ℕ
    samelevel zero start up = fault
    samelevel (suc fuel) start up = elim (start == 0) [
      | true ↦ done 0
      | false ↦ elim ((up == 0) || not ((s start).next == 0)) [
        | true ↦ done (s start).next
        | false ↦ climb fuel (s start).parent up
      ]
    ]

    pub climb : (fuel start up : ℕ) → Run ℕ
    climb zero start up = fault
    climb (suc fuel) start up = samelevel fuel start (up - 1) >>= λ curr. elim (curr == 0) [
      | true ↦ done 0
      | false ↦ elim ((s curr).children == 0) [
        | true ↦ climb fuel curr up
        | false ↦ done (s curr).children
      ]
    ]

  -- `mpt_gnode_sublevel`
  unfoldable pub sublevel : (fuel start up : ℕ) → Run ℕ
  sublevel zero start up = fault
  sublevel (suc fuel) start up = elim (start == 0) [
    | true ↦ done 0
    | false ↦ elim ((s start).children == 0) [
      | true ↦ samelevel fuel start up >>= λ next. sublevel fuel next up
      | false ↦ done (s start).children
    ]
  ]

module _ {ℓ} {A : Type ℓ} (flags : Filter) (traverse : Handler A) (s : Store) where
  -- The inner and the outer loop of `_mpt_gnode_traverse_level`.
  unfoldable pub traverse_row : (fuel curr up depth : ℕ) → A → Walk A
  traverse_row zero curr up depth a = fault
  traverse_row (suc fuel) curr up depth a = elim (curr == 0) [
    | true ↦ done (a, 0)
    | false ↦ then_on (visit flags traverse s curr depth a) (λ b.
        (if (s curr).next == 0 then samelevel s fuel curr up else done (s curr).next) >>= λ next.
        traverse_row fuel next up depth b)
  ]

  unfoldable pub traverse_level : (fuel node up depth : ℕ) → A → Walk A
  traverse_level zero node up depth a = fault
  traverse_level (suc fuel) node up depth a = elim (node == 0) [
    | true ↦ done (a, 0)
    | false ↦
        then_on (traverse_row fuel node up depth a)
          (λ b. sublevel s fuel node up >>= λ next. traverse_level fuel next (up + 1) (depth + 1) b)
  ]

-- `TraverseOrders`
pub data Order : Type 0 where
  post_order : Order
  pre_order : Order
  in_order : Order
  level_order : Order

-- `mpt_gnode_traverse`
unfoldable pub gnode_traverse {ℓ} :
    {A : Type ℓ} → Order → Filter → Handler A → Store → (fuel node : ℕ) → A → Walk A
gnode_traverse order flags traverse s fuel node a = elim (node == 0) [
  | true ↦ done (a, 0)
  | false ↦ elim order [
    | post_order ↦ list_post flags traverse s fuel node 0 a
    | pre_order ↦ list_pre flags traverse s fuel node 0 a
    | in_order ↦ list_in flags traverse s fuel node 0 a
    | level_order ↦ traverse_level flags traverse s fuel node 0 0 a
  ]
]
