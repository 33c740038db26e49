-- ===== src/Node/Traverse/Events.antt =====
-- mptcore/node/gnode_traverse.c: the traversals against the order of the nodes in an abstract forest.
use mpt_base.Prelude.{ℕ, ◌+◌, Bool, true, false, ◌≡◌, if◌then◌else◌, List, [], ◌∷◌, ◌++◌, done}
use mpt_base.Node.{Store}
use mpt_base.Node.Traverse.{
  Handler, Filter, Walk, then_on, Order, post_order, pre_order, in_order, level_order,
}

-- An ordered forest: the first tree's node, its children, and the trees after it.
pub data Forest : Type 0 where
  empty : Forest
  tree : ℕ → (children rest : Forest) → Forest

abbrev pub size : Forest → ℕ
size empty = 0
size (tree x c r) = size c + size r + 1

-- The list of nodes at `p` holds the forest.
abbrev pub Holds : Store → (p : ℕ) → Forest → Type 0
Holds s p empty = p ≡ 0
Holds s p (tree x c r) = (p ≡ x) × (¬ (p ≡ 0)) × Holds s (s p).children c × Holds s (s p).next r

-- A node with its depth, and whether it has no children.
pub record Event : Type 0 where
  pub node : ℕ
  pub depth : ℕ
  pub is_leaf : Bool

abbrev pub has_none : Forest → Bool
has_none empty = true
has_none (tree x c r) = false

abbrev pub here : ℕ → Forest → (depth : ℕ) → Event
here x c d = record { node = x; depth = d; is_leaf = has_none c }

abbrev pub pre_events : Forest → (depth : ℕ) → List Event
pre_events empty d = []
pre_events (tree x c r) d = here x c d ∷ (pre_events c (d + 1) ++ pre_events r d)

abbrev pub post_events : Forest → (depth : ℕ) → List Event
post_events empty d = []
post_events (tree x c r) d = post_events c (d + 1) ++ (here x c d ∷ post_events r d)

-- In order, a node comes behind its first child's tree: `self` is what comes behind the first tree.
abbrev pub in_events : (self : List Event) → Forest → (depth : ℕ) → List Event
in_events self empty d = self
in_events self (tree x c r) d = in_events (here x c d ∷ []) c (d + 1) ++ (self ++ in_events [] r d)

module _ {ℓ} {A : Type ℓ} (flags : Filter) (traverse : Handler A) where
  -- The handler on one event, if the filter passes it.
  abbrev pub step : Event → A → Walk A
  step e a = elim (if e.is_leaf then flags.leafs else flags.non_leafs) [
    | true ↦ (let r = traverse a e.node e.depth in done (r.0, if r.1 then e.node else 0))
    | false ↦ done (a, 0)
  ]

  -- The handler on the events in their order, until it stops.
  abbrev pub run : List Event → A → Walk A
  run [] a = done (a, 0)
  run (e ∷ es) a = then_on (step e a) (λ b. run es b)

-- The nodes of a forest in the order of a traversal.
abbrev pub events : Order → Forest → List Event
events post_order f = post_events f 0
events pre_order f = pre_events f 0
events in_order f = in_events [] f 0
events level_order f = []
