-- ===== src/Node/Order/Children.antt =====
-- mptcore/node/node_insert.c: `mpt_gnode_insert` puts a node among the children of another.
use mpt_base.Prelude.{
  ℕ, zero, suc, ◌+◌, ◌<◌, ◌≡◌, refl, sym, ap, ◌∙◌, List, [], ◌∷◌, length, arith, ◌==◌,
  if◌then◌else◌, done, ok,
}
use mpt_base.Prelude.Int.{ℤ, pos, negsuc}
use mpt_base.Node.{Store, gnode_add, gnode_insert, set_children, set_parent}
use mpt_base.Node.Links.{IsLinked, IsAlone}
use mpt_base.Node.Order.{Chain, nth, insert_at, length-insert_at, Chain-first, Chain-member}
use mpt_base.Node.Order.Insert.{HasInserted}
use mpt_base.Node.Order.Add.{gnode_add_lem, place_index}

only_child : Store → (parent node : ℕ) → Store
only_child s parent node = set_parent (set_children s parent node) node parent

module _ (s : Store) (parent node : ℕ) where
  only_child-next : (a : ℕ) → (only_child s parent node a).next ≡ (s a).next
  unfolding only_child
  only_child-next a = ground arith

  only_child-prev : (a : ℕ) → (only_child s parent node a).prev ≡ (s a).prev
  unfolding only_child
  only_child-prev a = ground arith

  only_child-parent :
      (a : ℕ) → (only_child s parent node a).parent ≡ (if a == node then parent else (s a).parent)
  unfolding only_child
  only_child-parent a = ground arith

  only_child-children :
      (a : ℕ)
      → (only_child s parent node a).children ≡ (if a == parent then node else (s a).children)
  unfolding only_child
  only_child-children a = ground arith

module _ (s t : Store) (parent node : ℕ) (w : IsLinked s) (l : IsAlone s node) (f : ¬ (parent ≡ 0))
    (g : (s parent).children ≡ 0) (next_of : (a : ℕ) → (t a).next ≡ (s a).next)
    (prev_of : (a : ℕ) → (t a).prev ≡ (s a).prev)
    (parent_of : (a : ℕ) → (t a).parent ≡ (if a == node then parent else (s a).parent))
    (children_of : (a : ℕ) → (t a).children ≡ (if a == parent then node else (s a).children)) where
  only_child-IsLinked : IsLinked t
  only_child-IsLinked = record {
    next_back = λ p d e. ground (arith, w.next_back p d, next_of p, prev_of (t p).next);
    next_up = λ p d e. ground (
      arith,
      w.next_up p d,
      w.next_back p d,
      l.no_next,
      l.no_prev,
      next_of p,
      parent_of p,
      parent_of (t p).next,
    );
    prev_back = λ p d e. ground (arith, w.prev_back p d, prev_of p, next_of (t p).prev);
    child_up = λ p d e.
        ground
          (arith, w.child_up p d, l.no_parent, l.is_node, children_of p, parent_of (t p).children);
    child_first = λ p d e.
        ground (arith, w.child_first p d, l.no_prev, children_of p, prev_of (t p).children);
    first_child = λ p d e h. ground (
      arith,
      w.first_child p d,
      l.is_node,
      f,
      g,
      parent_of p,
      prev_of p,
      children_of (t p).parent,
    );
  }

-- The members of a chain have the parent of its first.
Chain-up :
    (t : Store) (ys : List ℕ) (p j : ℕ)
    → IsLinked t
    → Chain t p ys
    → j < length ys
    → (t (nth ys j)).parent ≡ (t p).parent
Chain-up t [] p j w c h = let none_left : ⊥ = omega arith in elim none_left [ ]
Chain-up t (y ∷ ys) p zero w c h = ap (λ q. (t q).parent) (sym c.0)
Chain-up t (y ∷ ys) p (suc j) w c h =
    let next_first = Chain-first t ys (t p).next c.2 in
    let some_next = (Chain-member t ys (t p).next 0 c.2 (omega arith)).0 in
    Chain-up t ys (t p).next j w c.2 (omega arith)
    ∙ w.next_up p c.1 (λ z. some_next (next_first ∙ z))

place_index_bound : (n : ℕ) (at_ : ℤ) → place_index n at_ < n + 1
place_index_bound n (pos zero) = omega arith
place_index_bound n (pos (suc k)) = ground arith
place_index_bound n (negsuc k) = omega arith

insert_at-nil : (k node : ℕ) → insert_at k node [] ≡ node ∷ []
insert_at-nil zero node = refl
insert_at-nil (suc k) node = refl

-- Links matched, and the children of the parent are `ys`, each with it as its parent.
pub record HasChildren (t : Store) (parent : ℕ) (ys : List ℕ) : Type 0 where
  pub linked : IsLinked t
  pub chain : Chain t (t parent).children ys
  pub up : (j : ℕ) → j < length ys → (t (nth ys j)).parent ≡ parent

HasInserted-HasChildren :
    (s t : Store) (first parent node k : ℕ) (xs : List ℕ)
    → ¬ (parent ≡ 0)
    → (s first).parent ≡ parent
    → k < length xs + 1
    → HasInserted s t first node k xs
    → HasChildren t parent (insert_at k node xs)
HasInserted-HasChildren s t first parent node k xs f e h v =
    let ys = insert_at k node xs in
    let head_up : (t (nth ys 0)).parent ≡ parent = v.up ∙ e in
    let some_ : ¬ (nth ys 0 ≡ 0) =
      (Chain-member t ys (nth ys 0) 0 v.chain (omega (arith, length-insert_at xs k node))).0 in
    let first_ : (t parent).children ≡ nth ys 0 =
      ap (λ q. (t q).children) (sym head_up)
      ∙ v.linked.first_child (nth ys 0) some_ (λ z. f (sym head_up ∙ z)) v.no_prev in
    record {
      linked = v.linked;
      chain = rw first_ v.chain;
      up = λ j l. Chain-up t ys (nth ys 0) j v.linked v.chain l ∙ head_up;
    }

-- `mpt_gnode_insert` of a lone node, which is not the parent's first child, below a parent with at
-- most `fuel` children succeeds: the children are those from before with the node at the index that
-- the position says, all below the parent, and the links of the forest stay matched.
pub gnode_insert_lem :
    (fuel : ℕ) (s : Store) (xs : List ℕ) (parent node : ℕ) (at_ : ℤ)
    → ¬ (parent ≡ 0)
    → IsLinked s
    → IsAlone s node
    → Chain s (s parent).children xs
    → ¬ (node ≡ (s parent).children)
    → length xs < fuel + 1
    → (t : Store) × (gnode_insert fuel s parent at_ node ≡ done (t, ok 0))
      × HasChildren t parent (insert_at (place_index (length xs) at_) node xs)
unfolding gnode_insert gnode_add only_child
gnode_insert_lem fuel s [] parent node at_ f w l c o h =
    let t = only_child s parent node in
    let linked =
      only_child-IsLinked s t parent node w l f c (only_child-next s parent node)
        (only_child-prev s parent node) (only_child-parent s parent node)
        (only_child-children s parent node) in
    let child : (t parent).children ≡ node =
      only_child-children s parent node parent ∙ ground arith in
    let up : (t node).parent ≡ parent = only_child-parent s parent node node ∙ ground arith in
    let last : (t node).next ≡ 0 = only_child-next s parent node node ∙ l.no_next in
    (
      t,
      ground (arith, l.is_node),
      rw (insert_at-nil (place_index 0 at_) node) (record {
        linked = linked;
        chain = (child, (λ z. l.is_node (sym child ∙ z)), ap (λ q. (t q).next) child ∙ last);
        up = λ j k. ground (arith, up);
      }),
    )
gnode_insert_lem fuel s (x ∷ xs) parent node at_ f w l c o h =
    let added =
      gnode_add_lem fuel s (x ∷ xs) (s parent).children node at_ c.1
        (record {
          linked = w;
          alone = l;
          chain = c;
          no_prev = w.child_first parent f c.1;
          other = o;
        })
        h in
    (
      added.0,
      ground (arith, f, c.1, l.is_node, added.1),
      HasInserted-HasChildren s added.0 (s parent).children parent node
          (place_index (length (x ∷ xs)) at_) (x ∷ xs) f (w.child_up parent f c.1)
          (place_index_bound (length (x ∷ xs)) at_) added.2,
    )
