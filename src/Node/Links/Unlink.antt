-- ===== src/Node/Links/Unlink.antt =====
-- mptcore/node/node_unlink.c: the links of all nodes after one was taken out.
use mpt_base.Prelude.{ℕ, ◌≡◌, ◌==◌, ◌&&◌, not, if◌then◌else◌, arith}
use mpt_base.Node.{Store, node_unlink, bridge_next, bridge_prev, reset_links}
use mpt_base.Node.Links.{IsLinked, IsAlone}

module _ (s : Store) (curr : ℕ) where
  bridge_next-prev :
      (a : ℕ)
      → (bridge_next s curr a).prev
        ≡ (if not ((s curr).next == 0) && (a == (s curr).next) then (s curr).prev else (s a).prev)
  unfolding bridge_next
  bridge_next-prev a = ground arith

  bridge_next-next : (a : ℕ) → (bridge_next s curr a).next ≡ (s a).next
  unfolding bridge_next
  bridge_next-next a = ground arith

  bridge_next-parent : (a : ℕ) → (bridge_next s curr a).parent ≡ (s a).parent
  unfolding bridge_next
  bridge_next-parent a = ground arith

  bridge_next-children : (a : ℕ) → (bridge_next s curr a).children ≡ (s a).children
  unfolding bridge_next
  bridge_next-children a = ground arith

module _ (s : Store) (next prev parent : ℕ) where
  bridge_prev-next :
      (a : ℕ)
      → (bridge_prev s next prev parent a).next
        ≡ (if not (prev == 0) && (a == prev) then next else (s a).next)
  unfolding bridge_prev
  bridge_prev-next a = ground arith

  bridge_prev-prev : (a : ℕ) → (bridge_prev s next prev parent a).prev ≡ (s a).prev
  unfolding bridge_prev
  bridge_prev-prev a = ground arith

  bridge_prev-parent : (a : ℕ) → (bridge_prev s next prev parent a).parent ≡ (s a).parent
  unfolding bridge_prev
  bridge_prev-parent a = ground arith

  bridge_prev-children :
      (a : ℕ)
      → (bridge_prev s next prev parent a).children
        ≡ (if (prev == 0) && (not (parent == 0) && (a == parent)) then next else (s a).children)
  unfolding bridge_prev
  bridge_prev-children a = ground arith

module _ (s : Store) (curr : ℕ) where
  bridged : Store
  bridged =
      bridge_prev (bridge_next s curr) (s curr).next (bridge_next s curr curr).prev
        (bridge_next s curr curr).parent

  unlinked : Store
  unlinked = reset_links bridged curr

  node_unlink-store : ¬ (curr ≡ 0) → (node_unlink s curr).0 ≡ unlinked
  unfolding node_unlink unlinked bridged
  node_unlink-store f = ground arith

  unlink_next :
      (a : ℕ)
      → (unlinked a).next ≡ (
          if a == curr
          then 0
          else if not ((s curr).prev == 0) && (a == (s curr).prev)
          then (s curr).next
          else (s a).next)
  unfolding unlinked bridged reset_links
  unlink_next a = ground (
    arith,
    bridge_prev-next (bridge_next s curr) (s curr).next (bridge_next s curr curr).prev
        (bridge_next s curr curr).parent a,
    bridge_next-next s curr a,
    bridge_next-prev s curr curr,
  )

  unlink_prev :
      (a : ℕ)
      → (unlinked a).prev ≡ (
          if a == curr
          then 0
          else if not ((s curr).next == 0) && (a == (s curr).next)
          then (s curr).prev
          else (s a).prev)
  unfolding unlinked bridged reset_links
  unlink_prev a = ground (
    arith,
    bridge_prev-prev (bridge_next s curr) (s curr).next (bridge_next s curr curr).prev
        (bridge_next s curr curr).parent a,
    bridge_next-prev s curr a,
  )

  unlink_parent : (a : ℕ) → (unlinked a).parent ≡ (if a == curr then 0 else (s a).parent)
  unfolding unlinked bridged reset_links
  unlink_parent a = ground (
    arith,
    bridge_prev-parent (bridge_next s curr) (s curr).next (bridge_next s curr curr).prev
        (bridge_next s curr curr).parent a,
    bridge_next-parent s curr a,
  )

  unlink_children :
      (a : ℕ)
      → (unlinked a).children ≡ (
          if ((s curr).prev == 0) && (not ((s curr).parent == 0) && (a == (s curr).parent))
          then (s curr).next
          else (s a).children)
  unfolding unlinked bridged reset_links
  unlink_children a = ground (
    arith,
    bridge_prev-children (bridge_next s curr) (s curr).next (bridge_next s curr curr).prev
        (bridge_next s curr curr).parent a,
    bridge_next-children s curr a,
    bridge_next-prev s curr curr,
    bridge_next-parent s curr curr,
  )

module _ (s t : Store) (curr : ℕ) (w : IsLinked s) (f : ¬ (curr ≡ 0))
    (next_of : (a : ℕ)
      → (t a).next ≡ (
          if a == curr
          then 0
          else if not ((s curr).prev == 0) && (a == (s curr).prev)
          then (s curr).next
          else (s a).next))
    (prev_of : (a : ℕ)
      → (t a).prev ≡ (
          if a == curr
          then 0
          else if not ((s curr).next == 0) && (a == (s curr).next)
          then (s curr).prev
          else (s a).prev))
    (parent_of : (a : ℕ) → (t a).parent ≡ (if a == curr then 0 else (s a).parent))
    (children_of : (a : ℕ)
      → (t a).children ≡ (
          if ((s curr).prev == 0) && (not ((s curr).parent == 0) && (a == (s curr).parent))
          then (s curr).next
          else (s a).children)) where
  without-IsLinked : IsLinked t
  without-IsLinked = record {
    next_back = λ p d e. ground (
      arith,
      w.next_back p d,
      w.prev_back curr f,
      w.next_back curr f,
      next_of p,
      prev_of (t p).next,
    );
    next_up = λ p d e. ground (
      arith,
      w.next_up p d,
      w.next_back p d,
      w.prev_back curr f,
      w.next_back curr f,
      w.next_up curr f,
      next_of p,
      parent_of p,
      parent_of (t p).next,
    );
    prev_back = λ p d e. ground (
      arith,
      w.prev_back p d,
      w.prev_back curr f,
      w.next_back curr f,
      prev_of p,
      next_of (t p).prev,
    );
    child_up = λ p d e. ground (
      arith,
      w.child_up p d,
      w.next_up curr f,
      w.next_back curr f,
      w.child_first p d,
      w.first_child curr f,
      children_of p,
      parent_of (t p).children,
    );
    child_first = λ p d e. ground (
      arith,
      w.child_first p d,
      w.child_up p d,
      w.first_child curr f,
      w.next_back curr f,
      children_of p,
      prev_of (t p).children,
    );
    first_child = λ p d e g. ground (
      arith,
      w.first_child p d,
      w.first_child curr f,
      w.child_first (s p).parent,
      w.next_back curr f,
      w.prev_back p d,
      w.next_up curr f,
      parent_of p,
      prev_of p,
      children_of (t p).parent,
    );
  }

-- `mpt_node_unlink` of a node in a store whose links are matched keeps the links of all nodes
-- matched, and leaves the node with no neighbours and no parent.
pub node_unlink-IsLinked :
    (s : Store) (curr : ℕ)
    → IsLinked s
    → ¬ (curr ≡ 0)
    → IsLinked ((node_unlink s curr).0) × IsAlone ((node_unlink s curr).0) curr
node_unlink-IsLinked s curr w f = rw (node_unlink-store s curr f) (
  without-IsLinked s (unlinked s curr) curr w f (unlink_next s curr) (unlink_prev s curr)
      (unlink_parent s curr) (unlink_children s curr),
  record {
    is_node = f;
    no_next = ground (arith, unlink_next s curr curr);
    no_prev = ground (arith, unlink_prev s curr curr);
    no_parent = ground (arith, unlink_parent s curr curr);
  },
)
