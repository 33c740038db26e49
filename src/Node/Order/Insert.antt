-- ===== src/Node/Order/Insert.antt =====
-- mptcore/node/gnode_after.c and gnode_before.c at an index of a chain of nodes.
use mpt_base.Prelude.{ℕ, zero, suc, ◌<◌, ◌≡◌, refl, ap, ◌∙◌, List, length, arith}
use mpt_base.Node.{Store, gnode_after, gnode_before}
use mpt_base.Node.Links.{IsLinked, IsAlone}
use mpt_base.Node.Links.Behind.{after_next, after_prev, after_parent, gnode_after-IsLinked}
use mpt_base.Node.Links.Front.{before_next, before_prev, before_parent, gnode_before-IsLinked}
use mpt_base.Node.Order.{
  Chain, nth, insert_at, Chain-null, Chain-member, Chain-first, insert_at_front, nth_injective,
}
use mpt_base.Node.Order.Place.{outside, inserted-Chain}

-- A list of the forest with the nodes `xs`, and a lone node that is none of them.
pub record IsList (s : Store) (first node : ℕ) (xs : List ℕ) : Type 0 where
  pub linked : IsLinked s
  pub alone : IsAlone s node
  pub chain : Chain s first xs
  pub no_prev : (s first).prev ≡ 0
  pub other : ¬ (node ≡ first)

-- The store after the insertion: links matched, and the list with the node at the index `k`, of
-- which the first has no predecessor and the same parent as the first had.
pub record HasInserted (s t : Store) (first node k : ℕ) (xs : List ℕ) : Type 0 where
  pub linked : IsLinked t
  pub chain : Chain t (nth (insert_at k node xs) 0) (insert_at k node xs)
  pub no_prev : (t (nth (insert_at k node xs) 0)).prev ≡ 0
  pub up : (t (nth (insert_at k node xs) 0)).parent ≡ (s first).parent

module _ (s : Store) (xs : List ℕ) (first node i : ℕ) (l : IsList s first node xs)
    (h : i < length xs) where
  out : (j : ℕ) → j < length xs → ¬ (node ≡ nth xs j)
  out = outside s xs first node i l.linked l.alone l.chain l.no_prev l.other h

  pub here : ¬ (nth xs i ≡ 0)
  here = (Chain-member s xs first i l.chain h).0

  next_here : (s (nth xs i)).next ≡ nth xs (suc i)
  next_here = (Chain-member s xs first i l.chain h).1

  -- The first of the longer list stands where it stood, or is the node itself.
  behind_first : nth (insert_at (suc i) node xs) 0 ≡ first
  behind_first =
      insert_at_front xs (suc i) node 0 (omega arith) (omega arith) ∙ Chain-first s xs first l.chain

  not_next : ¬ ((s (nth xs i)).next ≡ 0) → ¬ (first ≡ (s (nth xs i)).next)
  not_next f e =
      ground (arith, l.linked.next_back (nth xs i) here f, l.no_prev, here, ap (λ q. (s q).prev) e)

  pub behind-HasInserted : HasInserted s (gnode_after s (nth xs i) node) first node (suc i) xs
  behind-HasInserted =
      let next_of = after_next s (nth xs i) node l.alone.is_node here (out i h) in
      record {
        linked = gnode_after-IsLinked s (nth xs i) node l.linked l.alone here (out i h);
        chain =
            inserted-Chain s (gnode_after s (nth xs i) node) xs first node (suc i) l.chain
              l.alone.is_node (omega arith)
              (λ j k d. ground (
                arith,
                next_of (nth xs j),
                out j k,
                nth_injective s xs first j i l.chain k h,
                (Chain-member s xs first j l.chain k).1,
              ))
              (λ j d. ground (arith, next_of (nth xs j), ap (nth xs) (the_pred j i d)))
              (ground (arith, next_of node, out i h, next_here));
        no_prev = rw behind_first (
            ground (
              arith,
              after_prev s (nth xs i) node l.alone.is_node here (out i h) first,
              not_next,
              l.other,
              l.no_prev,
            ));
        up = rw behind_first (
            ground (
              arith,
              after_parent s (nth xs i) node l.alone.is_node here (out i h) first,
              l.other,
            ));
      }
    where
      the_pred : (j i : ℕ) → suc j ≡ suc i → j ≡ i
      the_pred j i d = omega arith

  front_first : 0 < i → nth (insert_at i node xs) 0 ≡ first
  front_first g = insert_at_front xs i node 0 (omega arith) g ∙ Chain-first s xs first l.chain

  not_here : 0 < i → ¬ (first ≡ nth xs i)
  not_here g e =
      let same =
        nth_injective s xs first 0 i l.chain (omega arith) h (Chain-first s xs first l.chain ∙ e) in
      omega arith

  front_prev :
      (k : ℕ) → i ≡ k → (gnode_before s (nth xs i) node (nth (insert_at i node xs) 0)).prev ≡ 0
  front_prev zero e =
      let at_first : nth xs i ≡ first = ap (nth xs) e ∙ Chain-first s xs first l.chain in
      rw (ap (λ k. nth (insert_at k node xs) 0) e) (
        ground (
          arith,
          before_prev s (nth xs i) node l.alone.is_node here (out i h) node,
          out i h,
          ap (λ q. (s q).prev) at_first,
          l.no_prev,
        ))
  front_prev (suc k) e = rw (front_first (omega arith)) (
      ground (
        arith,
        before_prev s (nth xs i) node l.alone.is_node here (out i h) first,
        not_here (omega arith),
        l.other,
        l.no_prev,
      ))

  front_up :
      (k : ℕ)
      → i ≡ k
      → (gnode_before s (nth xs i) node (nth (insert_at i node xs) 0)).parent ≡ (s first).parent
  front_up zero e =
      let at_first : nth xs i ≡ first = ap (nth xs) e ∙ Chain-first s xs first l.chain in
      rw (ap (λ k. nth (insert_at k node xs) 0) e) (
        ground (
          arith,
          before_parent s (nth xs i) node l.alone.is_node here (out i h) node,
          ap (λ q. (s q).parent) at_first,
        ))
  front_up (suc k) e = rw (front_first (omega arith)) (
      ground (arith, before_parent s (nth xs i) node l.alone.is_node here (out i h) first, l.other))

  pub in_front-HasInserted : HasInserted s (gnode_before s (nth xs i) node) first node i xs
  in_front-HasInserted =
      let next_of = before_next s (nth xs i) node l.alone.is_node here (out i h) in
      record {
        linked = gnode_before-IsLinked s (nth xs i) node l.linked l.alone here (out i h);
        chain =
            inserted-Chain s (gnode_before s (nth xs i) node) xs first node i l.chain
              l.alone.is_node (omega arith)
              (λ j k d. ground (
                arith,
                next_of (nth xs j),
                out j k,
                here,
                l.linked.prev_back (nth xs i) here,
                Chain-member s xs first j l.chain k,
                Chain-null s xs first (suc j) l.chain,
                nth_injective s xs first (suc j) i l.chain,
              ))
              (λ j d. ground (
                arith,
                next_of (nth xs j),
                here,
                l.linked.next_back (nth xs j),
                Chain-member s xs first j l.chain (omega arith),
                ap (nth xs) d,
              ))
              (ground (
                arith,
                next_of node,
                out i h,
                here,
                l.linked.prev_back (nth xs i) here,
                l.alone.no_next,
              ));
        no_prev = front_prev i refl;
        up = front_up i refl;
      }
