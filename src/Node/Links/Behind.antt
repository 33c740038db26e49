-- ===== src/Node/Links/Behind.antt =====
-- mptcore/node/gnode_after.c: the links of all nodes after an insertion behind a node.
use mpt_base.Prelude.{ℕ, ◌≡◌, ◌==◌, ◌&&◌, not, if◌then◌else◌, arith}
use mpt_base.Node.{Store, gnode_after}
use mpt_base.Node.Links.{IsLinked, IsAlone}

module _ (s : Store) (position insert : ℕ) (f : ¬ (insert ≡ 0)) (g : ¬ (position ≡ 0))
    (h : ¬ (insert ≡ position)) where
  pub after_next :
      (a : ℕ)
      → (gnode_after s position insert a).next
        ≡ (if a == position then insert else if a == insert then (s position).next else (s a).next)
  unfolding gnode_after
  after_next a = ground arith

  pub after_prev :
      (a : ℕ)
      → (gnode_after s position insert a).prev ≡ (
          if not ((s position).next == 0) && (a == (s position).next)
          then insert
          else if a == insert
          then position
          else (s a).prev)
  unfolding gnode_after
  after_prev a = ground arith

  pub after_parent :
      (a : ℕ)
      → (gnode_after s position insert a).parent
        ≡ (if a == insert then (s position).parent else (s a).parent)
  unfolding gnode_after
  after_parent a = ground arith

  after_children : (a : ℕ) → (gnode_after s position insert a).children ≡ (s a).children
  unfolding gnode_after
  after_children a = ground arith

module _ (s t : Store) (position insert : ℕ) (w : IsLinked s) (a : IsAlone s insert)
    (g : ¬ (position ≡ 0)) (h : ¬ (insert ≡ position))
    (next_of : (q : ℕ)
      → (t q).next
        ≡ (if q == position then insert else if q == insert then (s position).next else (s q).next))
    (prev_of : (q : ℕ)
      → (t q).prev ≡ (
          if not ((s position).next == 0) && (q == (s position).next)
          then insert
          else if q == insert
          then position
          else (s q).prev))
    (parent_of : (q : ℕ)
      → (t q).parent ≡ (if q == insert then (s position).parent else (s q).parent))
    (children_of : (q : ℕ) → (t q).children ≡ (s q).children) where
  behind-IsLinked : IsLinked t
  behind-IsLinked = record {
    next_back = λ p d e. ground (
      arith,
      w.next_back p d,
      w.next_back position g,
      a.is_node,
      a.no_prev,
      next_of p,
      prev_of (t p).next,
    );
    next_up = λ p d e. ground (
      arith,
      w.next_up p d,
      w.next_back p d,
      w.next_up position g,
      a.is_node,
      a.no_prev,
      next_of p,
      parent_of p,
      parent_of (t p).next,
    );
    prev_back = λ p d e. ground (
      arith,
      w.prev_back p d,
      w.next_back position g,
      w.prev_back insert a.is_node,
      a.no_next,
      a.no_prev,
      a.is_node,
      prev_of p,
      next_of (t p).prev,
    );
    child_up = λ p d e.
        ground
          (arith, w.child_up p d, a.no_parent, a.is_node, children_of p, parent_of (t p).children);
    child_first = λ p d e. ground (
      arith,
      w.child_first p d,
      w.child_up p d,
      w.next_back position g,
      a.no_parent,
      a.is_node,
      children_of p,
      prev_of (t p).children,
    );
    first_child = λ p d e f.
        ground
          (arith, w.first_child p d, a.is_node, parent_of p, prev_of p, children_of (t p).parent);
  }

-- Inserting a lone node behind another keeps all the links of the forest matched.
pub gnode_after-IsLinked :
    (s : Store) (position insert : ℕ)
    → IsLinked s
    → IsAlone s insert
    → ¬ (position ≡ 0)
    → ¬ (insert ≡ position)
    → IsLinked (gnode_after s position insert)
gnode_after-IsLinked s position insert w a g h =
    behind-IsLinked s (gnode_after s position insert) position insert w a g h
      (after_next s position insert a.is_node g h) (after_prev s position insert a.is_node g h)
      (after_parent s position insert a.is_node g h)
      (after_children s position insert a.is_node g h)
