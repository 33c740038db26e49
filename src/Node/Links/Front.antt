-- ===== src/Node/Links/Front.antt =====
-- mptcore/node/gnode_before.c: the links of all nodes after an insertion in front of a node.
use mpt_base.Prelude.{ℕ, ◌≡◌, ◌==◌, ◌&&◌, not, if◌then◌else◌, arith}
use mpt_base.Node.{Store, gnode_before}
use mpt_base.Node.Links.{IsLinked, IsAlone}

module _ (s : Store) (position insert : ℕ) (f : ¬ (insert ≡ 0)) (g : ¬ (position ≡ 0))
    (h : ¬ (insert ≡ position)) where
  pub before_prev :
      (a : ℕ)
      → (gnode_before s position insert a).prev
        ≡ (if a == position then insert else if a == insert then (s position).prev else (s a).prev)
  unfolding gnode_before
  before_prev a = ground arith

  pub before_next :
      (a : ℕ)
      → (gnode_before s position insert a).next ≡ (
          if not ((s position).prev == 0) && (a == (s position).prev)
          then insert
          else if a == insert
          then position
          else (s a).next)
  unfolding gnode_before
  before_next a = ground arith

  pub before_parent :
      (a : ℕ)
      → (gnode_before s position insert a).parent
        ≡ (if a == insert then (s position).parent else (s a).parent)
  unfolding gnode_before
  before_parent a = ground arith

  before_children :
      (a : ℕ)
      → (gnode_before s position insert a).children ≡ (
          if ((s position).prev == 0)
            && (not ((s position).parent == 0) && (a == (s position).parent))
          then insert
          else (s a).children)
  unfolding gnode_before
  before_children a = ground arith

module _ (s t : Store) (position insert : ℕ) (w : IsLinked s) (a : IsAlone s insert)
    (g : ¬ (position ≡ 0)) (h : ¬ (insert ≡ position))
    (prev_of : (q : ℕ)
      → (t q).prev
        ≡ (if q == position then insert else if q == insert then (s position).prev else (s q).prev))
    (next_of : (q : ℕ)
      → (t q).next ≡ (
          if not ((s position).prev == 0) && (q == (s position).prev)
          then insert
          else if q == insert
          then position
          else (s q).next))
    (parent_of : (q : ℕ)
      → (t q).parent ≡ (if q == insert then (s position).parent else (s q).parent))
    (children_of : (q : ℕ)
      → (t q).children ≡ (
          if ((s position).prev == 0)
            && (not ((s position).parent == 0) && (q == (s position).parent))
          then insert
          else (s q).children)) where
  in_front-IsLinked : IsLinked t
  in_front-IsLinked = record {
    next_back = λ p d e. ground (
      arith,
      w.next_back p d,
      w.prev_back position g,
      w.next_back insert a.is_node,
      a.is_node,
      a.no_next,
      a.no_prev,
      next_of p,
      prev_of (t p).next,
    );
    next_up = λ p d e. ground (
      arith,
      w.next_up p d,
      w.next_back p d,
      w.prev_back position g,
      w.next_up (s position).prev,
      a.is_node,
      a.no_prev,
      next_of p,
      parent_of p,
      parent_of (t p).next,
    );
    prev_back = λ p d e. ground (
      arith,
      w.prev_back p d,
      w.prev_back position g,
      w.prev_back insert a.is_node,
      a.no_next,
      a.no_prev,
      a.is_node,
      prev_of p,
      next_of (t p).prev,
    );
    child_up = λ p d e.
        ground
          (arith, w.child_up p d, a.no_parent, a.is_node, children_of p, parent_of (t p).children);
    child_first = λ p d e. ground (
      arith,
      w.child_first p d,
      w.child_up p d,
      w.first_child position g,
      a.no_parent,
      a.is_node,
      children_of p,
      prev_of (t p).children,
    );
    first_child = λ p d e f. ground (
      arith,
      w.first_child p d,
      w.first_child position g,
      w.child_first (s p).parent,
      a.is_node,
      parent_of p,
      prev_of p,
      children_of (t p).parent,
    );
  }

-- Inserting a lone node in front of another keeps all the links of the forest matched.
pub gnode_before-IsLinked :
    (s : Store) (position insert : ℕ)
    → IsLinked s
    → IsAlone s insert
    → ¬ (position ≡ 0)
    → ¬ (insert ≡ position)
    → IsLinked (gnode_before s position insert)
gnode_before-IsLinked s position insert w a g h =
    in_front-IsLinked s (gnode_before s position insert) position insert w a g h
      (before_prev s position insert a.is_node g h) (before_next s position insert a.is_node g h)
      (before_parent s position insert a.is_node g h)
      (before_children s position insert a.is_node g h)
