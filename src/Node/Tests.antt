-- ===== src/Node/Tests.antt =====
-- A forest of one parent with two children, a node with one child, and a lone node.
use mpt_base.Prelude.{
  ℕ, zero, suc, Bool, true, false, ◌≡◌, refl, ap, List, [], ◌∷◌, arith, ◌==◌, if◌then◌else◌, Run,
  done, fault, ok, Option, some, none,
}
use mpt_base.Prelude.Int.{pos, negsuc}
use mpt_base.Node.{
  Store, LinksOf, gnode_after, gnode_before, node_unlink, gnode_add, gnode_insert, gnode_swap,
  gnode_pos, steps_back, steps_on, list_end, gnode_switch, insert_by, second_place, set_parents,
}
use mpt_base.Node.Links.{IsLinked, IsAlone}
use mpt_base.Node.Links.Behind.{gnode_after-IsLinked}
use mpt_base.Node.Links.Front.{gnode_before-IsLinked}
use mpt_base.Node.Links.Unlink.{node_unlink-IsLinked}
use mpt_base.Node.Order.Insert.{IsList, HasInserted}
use mpt_base.Node.Order.Add.{gnode_add_lem}
use mpt_base.Node.Order.Children.{gnode_insert_lem, HasChildren}
use mpt_base.Node.Traverse.{
  Handler, Filter, Order, in_order, level_order, gnode_traverse, traverse_level, traverse_row,
  samelevel, sublevel, post_order, pre_order,
}
use mpt_base.Node.Traverse.Events.{Forest, empty, tree, run, events}
use mpt_base.Node.Traverse.Runs.{gnode_traverse_lem}
use mpt_base.Node.Swap.{HasSwapped, gnode_swap_lem}

-- next, prev, parent, children
abbrev row : ℕ → ℕ → ℕ → ℕ → LinksOf
row n p u c = record { next = n; prev = p; parent = u; children = c }

abbrev forest : Store
forest a =
    if a == 1
    then row 0 0 0 2
    else if a == 2
    then row 3 0 1 0
    else if a == 3
    then row 0 2 1 0
    else if a == 5
    then row 0 0 0 6
    else if a == 6
    then row 0 0 5 0
    else row 0 0 0 0

forest-IsLinked : IsLinked forest
forest-IsLinked = record {
  next_back = λ p d e. ground arith;
  next_up = λ p d e. ground arith;
  prev_back = λ p d e. ground arith;
  child_up = λ p d e. ground arith;
  child_first = λ p d e. ground arith;
  first_child = λ p d e f. ground arith;
}

lone : IsAlone forest 4
lone = record { is_node = omega arith; no_next = refl; no_prev = refl; no_parent = refl }

siblings : IsList forest 2 4 (2 ∷ 3 ∷ [])
siblings = record {
  linked = forest-IsLinked;
  alone = lone;
  chain = (refl, omega arith, (refl, omega arith, refl));
  no_prev = refl;
  other = omega arith;
}

gnode_after-IsLinked_example : IsLinked (gnode_after forest 2 4)
gnode_after-IsLinked_example =
    gnode_after-IsLinked forest 2 4 forest-IsLinked lone (omega arith) (omega arith)

gnode_before-IsLinked_example : IsLinked (gnode_before forest 2 4)
gnode_before-IsLinked_example =
    gnode_before-IsLinked forest 2 4 forest-IsLinked lone (omega arith) (omega arith)

node_unlink-IsLinked_example :
    IsLinked ((node_unlink forest 2).0) × IsAlone ((node_unlink forest 2).0) 2
node_unlink-IsLinked_example = node_unlink-IsLinked forest 2 forest-IsLinked (omega arith)

gnode_add_lem_example :
    (t : Store) × (gnode_add 2 forest 2 (negsuc 0) 4 ≡ done t)
    × HasInserted forest t 2 4 1 (2 ∷ 3 ∷ [])
gnode_add_lem_example =
    gnode_add_lem 2 forest (2 ∷ 3 ∷ []) 2 4 (negsuc 0) (omega arith) siblings (omega arith)

gnode_insert_lem_example :
    (t : Store) × (gnode_insert 2 forest 1 (pos 0) 4 ≡ done (t, ok 0))
    × HasChildren t 1 (2 ∷ 3 ∷ 4 ∷ [])
gnode_insert_lem_example =
    gnode_insert_lem 2 forest (2 ∷ 3 ∷ []) 1 4 (pos 0) (omega arith) forest-IsLinked lone
      (refl, omega arith, (refl, omega arith, refl)) (omega arith) (omega arith)

gnode_swap_lem_example :
    (t : Store) × (gnode_swap 3 forest 1 5 ≡ done t) × HasSwapped forest t 1 5 (2 ∷ 3 ∷ []) (6 ∷ [])
gnode_swap_lem_example =
    gnode_swap_lem 3 forest 1 5 (2 ∷ 3 ∷ []) (6 ∷ []) forest-IsLinked (omega arith) (omega arith)
      (omega arith) (refl, omega arith, (refl, omega arith, refl)) (refl, omega arith, refl)
      (omega arith) (omega arith)

-- The members of the list at `p`.
abbrev members : (fuel : ℕ) → Store → (p : ℕ) → List ℕ
members zero s p = []
members (suc fuel) s p = let rest = members fuel s (s p).next in if p == 0 then [] else p ∷ rest

abbrev members_in : Run Store → (p : ℕ) → List ℕ
members_in (done s) p = members 8 s p
members_in fault p = []

-- Position 1 is the first place, -1 the one in front of the last node.
added_first : members_in (gnode_add 2 forest 2 (pos 1) 4) 4 ≡ 4 ∷ 2 ∷ 3 ∷ []
unfolding gnode_add insert_by second_place gnode_pos steps_on gnode_before
added_first = refl

added_back : members_in (gnode_add 2 forest 2 (negsuc 0) 4) 2 ≡ 2 ∷ 4 ∷ 3 ∷ []
unfolding gnode_add insert_by second_place gnode_pos steps_back list_end gnode_after
added_back = refl

exchanged_children : members_in (gnode_swap 3 forest 1 5) 2 ≡ 2 ∷ 3 ∷ []
unfolding gnode_swap set_parents
exchanged_children = refl

abbrev links_in : Run Store → (p : ℕ) → Option LinksOf
links_in (done s) p = some (s p)
links_in fault p = none

-- Neighbours that are switched end as a node that is its own successor.
switched_neighbours : links_in (gnode_switch forest 2 3) 3 ≡ some (row 3 0 1 0)
unfolding gnode_switch
switched_neighbours = refl

-- The parent of a first child that has a successor keeps its link to that child.
abbrev forest_wide : Store
forest_wide a = if a == 2 then row 3 0 1 0 else if a == 7 then row 0 0 0 0 else forest a

switched_first : links_in (gnode_switch forest_wide 2 7) 1 ≡ some (row 0 0 0 2)
unfolding gnode_switch
switched_first = refl

abbrev is_level : Order → Bool
is_level post_order = false
is_level pre_order = false
is_level in_order = false
is_level level_order = true

in_not_level : in_order ≡ level_order → ⊥
in_not_level e = let b : false ≡ true = ap is_level e in ground (arith, b)

-- A handler that keeps the nodes and stops at node 9.
abbrev keep_until_nine : Handler (List ℕ)
keep_until_nine xs node depth = (node ∷ xs, node == 9)

abbrev all_nodes : Filter
all_nodes = record { leafs = true; non_leafs = true }

abbrev family : Forest
family = tree 1 (tree 2 empty (tree 3 empty empty)) empty

gnode_traverse_lem_example :
    gnode_traverse in_order all_nodes keep_until_nine forest 7 1 []
    ≡ run all_nodes keep_until_nine (events in_order family) []
gnode_traverse_lem_example =
    gnode_traverse_lem in_order all_nodes keep_until_nine forest family 7 1 [] (λ e. in_not_level e)
      (refl, omega arith, (refl, omega arith, refl, (refl, omega arith, refl, refl)), refl)
      (omega arith)

-- In order, the parent comes between its children; the handler has kept the last first.
in_order_family :
    run all_nodes keep_until_nine (events in_order family) [] ≡ done (3 ∷ 1 ∷ 2 ∷ [], 0)
in_order_family = refl

-- The levels of the same tree.
level_family :
    gnode_traverse level_order all_nodes keep_until_nine forest 7 1 [] ≡ done (3 ∷ 2 ∷ 1 ∷ [], 0)
unfolding gnode_traverse traverse_level traverse_row samelevel sublevel
level_family = refl
