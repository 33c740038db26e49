-- ===== src/Node/Swap.antt =====
-- mptcore/node/gnode_swap.c: the exchange of the children of two nodes.
use mpt_base.Prelude.{
  ℕ, zero, suc, ◌<◌, ◌≡◌, refl, ap, ◌∙◌, List, [], ◌∷◌, length, arith, ◌==◌, if◌then◌else◌, done,
}
use mpt_base.Node.{Store, set_parent, set_children, set_parents, gnode_swap}
use mpt_base.Node.Links.{IsLinked}
use mpt_base.Node.Order.{Chain, nth, Chain-first, Chain-member, nth_injective}

-- Only the parents of the nodes `xs` have changed, to `parent`.
pub record HasParent (s t : Store) (parent : ℕ) (xs : List ℕ) : Type 0 where
  pub next_same : (a : ℕ) → (t a).next ≡ (s a).next
  pub prev_same : (a : ℕ) → (t a).prev ≡ (s a).prev
  pub children_same : (a : ℕ) → (t a).children ≡ (s a).children
  pub inside : (i : ℕ) → i < length xs → (t (nth xs i)).parent ≡ parent
  pub outside : (a : ℕ) → ((i : ℕ) → i < length xs → ¬ (a ≡ nth xs i)) → (t a).parent ≡ (s a).parent

-- A chain is one in every store with the same successors.
same-Chain :
    (s t : Store) (xs : List ℕ) (p : ℕ)
    → ((a : ℕ) → (t a).next ≡ (s a).next)
    → Chain s p xs
    → Chain t p xs
same-Chain s t [] p e c = c
same-Chain s t (x ∷ xs) p e c = (c.0, c.1, rw (e p) (same-Chain s t xs (s p).next e c.2))

inside_more :
    (s t : Store) (x : ℕ) (xs : List ℕ) (p parent : ℕ)
    → Chain s p (x ∷ xs)
    → HasParent (set_parent s p parent) t parent xs
    → (i : ℕ) → i < suc (length xs)
    → (t (nth (x ∷ xs) i)).parent ≡ parent
inside_more s t x xs p parent c r zero k =
    r.outside x
      (λ i m e. zero_suc (nth_injective s (x ∷ xs) p 0 (suc i) c (omega arith) (omega arith) e))
    ∙ ground (arith, c.0)
  where
    zero_suc : {i : ℕ} → 0 ≡ suc i → ⊥
    zero_suc e = omega arith
inside_more s t x xs p parent c r (suc i) k = r.inside i (omega arith)

set_parents_lem :
    (fuel : ℕ) (s : Store) (xs : List ℕ) (p parent : ℕ)
    → Chain s p xs
    → length xs < fuel
    → (t : Store) × (set_parents fuel s p parent ≡ done t) × HasParent s t parent xs
unfolding set_parents
set_parents_lem zero s xs p parent c h = let none_left : ⊥ = omega arith in elim none_left [ ]
set_parents_lem (suc fuel) s [] p parent c h = (
  s,
  ground (arith, c),
  record {
    next_same = λ a. refl;
    prev_same = λ a. refl;
    children_same = λ a. refl;
    inside = λ i k. let none_left : ⊥ = omega arith in elim none_left [ ];
    outside = λ a f. refl;
  },
)
set_parents_lem (suc fuel) s (x ∷ xs) p parent c h =
    let s' : Store = set_parent s p parent in
    let same : (a : ℕ) → (s' a).next ≡ (s a).next = λ a. ground arith in
    let rest =
      set_parents_lem fuel s' xs (s' p).next parent
        (rw (same p) (same-Chain s s' xs (s p).next same c.2)) (omega arith) in
    (
      rest.0,
      ground (arith, rest.1, c.1),
      record {
        next_same = λ a. rest.2.next_same a ∙ same a;
        prev_same = λ a. rest.2.prev_same a ∙ ground arith;
        children_same = λ a. rest.2.children_same a ∙ ground arith;
        inside = inside_more s rest.0 x xs p parent c rest.2;
        outside = λ a f.
            rest.2.outside a (λ i k. f (suc i) (omega arith))
            ∙ ground (arith, f 0 (omega arith), c.0);
      },
    )

-- Every node of the chain of children has its parent.
children_parent :
    (s : Store) (xs : List ℕ) (p parent i : ℕ)
    → IsLinked s
    → Chain s p xs
    → (¬ (p ≡ 0) → (s p).parent ≡ parent)
    → i < length xs
    → (s (nth xs i)).parent ≡ parent
children_parent s xs p parent zero w c f h =
    let e = Chain-first s xs p c in rw e (f (λ z. (Chain-member s xs p 0 c h).0 (e ∙ z)))
children_parent s xs p parent (suc i) w c f h =
    let m = Chain-member s xs p i c (omega arith) in
    ground (
      arith,
      w.next_up (nth xs i),
      m,
      (Chain-member s xs p (suc i) c h).0,
      children_parent s xs p parent i w c f (omega arith),
      ap (λ q. (s q).parent) m.1,
    )

-- The store after the exchange: either list stands below the other node, with its parents.
pub record HasSwapped (s t : Store) (pri sec : ℕ) (xs ys : List ℕ) : Type 0 where
  pub to_sec : Chain t (t sec).children xs
  pub to_pri : Chain t (t pri).children ys
  pub sec_up : (i : ℕ) → i < length xs → (t (nth xs i)).parent ≡ sec
  pub pri_up : (i : ℕ) → i < length ys → (t (nth ys i)).parent ≡ pri
  pub others : (a : ℕ) → ¬ (a ≡ pri) → ¬ (a ≡ sec) → (t a).children ≡ (s a).children
  pub same_next : (a : ℕ) → (t a).next ≡ (s a).next
  pub same_prev : (a : ℕ) → (t a).prev ≡ (s a).prev

-- The node's children exchanged, before their parents are set.
abbrev exchanged : Store → (pri sec : ℕ) → Store
exchanged s pri sec = set_children (set_children s sec (s pri).children) pri (s sec).children

module _ (s t₁ t₂ : Store) (pri sec : ℕ) (xs ys : List ℕ) (w : IsLinked s) (f : ¬ (pri ≡ 0))
    (g : ¬ (sec ≡ 0)) (n : ¬ (pri ≡ sec)) (c : Chain s (s pri).children xs)
    (d : Chain s (s sec).children ys) (one : HasParent (exchanged s pri sec) t₁ sec xs)
    (two : HasParent t₁ t₂ pri ys) where
  next_same : (a : ℕ) → (t₂ a).next ≡ (s a).next
  next_same a = ground (arith, two.next_same a, one.next_same a)

  prev_same : (a : ℕ) → (t₂ a).prev ≡ (s a).prev
  prev_same a = ground (arith, two.prev_same a, one.prev_same a)

  children_of :
      (a : ℕ)
      → (t₂ a).children ≡ (
          if a == pri
          then (s sec).children
          else if a == sec
          then (s pri).children
          else (s a).children)
  children_of a = ground (arith, two.children_same a, one.children_same a)

  sec_children : (t₂ sec).children ≡ (s pri).children
  sec_children = ground (arith, children_of sec)

  pri_children : (t₂ pri).children ≡ (s sec).children
  pri_children = ground (arith, children_of pri)

  disjoint : (i j : ℕ) → i < length xs → j < length ys → ¬ (nth xs i ≡ nth ys j)
  disjoint i j h k e = ground (
    arith,
    children_parent s xs (s pri).children pri i w c (w.child_up pri f) h,
    children_parent s ys (s sec).children sec j w d (w.child_up sec g) k,
    ap (λ q. (s q).parent) e,
  )

  both-HasSwapped : HasSwapped s t₂ pri sec xs ys
  both-HasSwapped = record {
    to_sec = rw sec_children (same-Chain s t₂ xs (s pri).children next_same c);
    to_pri = rw pri_children (same-Chain s t₂ ys (s sec).children next_same d);
    sec_up = λ i h. two.outside (nth xs i) (λ j k. disjoint i j h k) ∙ one.inside i h;
    pri_up = two.inside;
    others = λ a u v. ground (arith, children_of a);
    same_next = next_same;
    same_prev = prev_same;
  }

swap_runs :
    (fuel : ℕ) (s t₁ t₂ : Store) (pri sec : ℕ)
    → ¬ (pri ≡ 0)
    → ¬ (sec ≡ 0)
    → set_parents fuel (exchanged s pri sec) (s pri).children sec ≡ done t₁
    → set_parents fuel t₁ (s sec).children pri ≡ done t₂
    → gnode_swap fuel s pri sec ≡ done t₂
unfolding gnode_swap
swap_runs fuel s t₁ t₂ pri sec f g e k = ground (arith, e, k)

-- `mpt_gnode_swap` of two nodes of a forest ends with fuel for their children, puts the children
-- of each below the other in their order, and changes no other list and no neighbour.
pub gnode_swap_lem :
    (fuel : ℕ) (s : Store) (pri sec : ℕ) (xs ys : List ℕ)
    → IsLinked s
    → ¬ (pri ≡ 0)
    → ¬ (sec ≡ 0)
    → ¬ (pri ≡ sec)
    → Chain s (s pri).children xs
    → Chain s (s sec).children ys
    → length xs < fuel
    → length ys < fuel
    → (t : Store) × (gnode_swap fuel s pri sec ≡ done t) × HasSwapped s t pri sec xs ys
gnode_swap_lem fuel s pri sec xs ys w f g n c d h k =
    let one =
      set_parents_lem fuel (exchanged s pri sec) xs (s pri).children sec
        (same-Chain s (exchanged s pri sec) xs (s pri).children (λ a. ground arith) c) h in
    let two =
      set_parents_lem fuel one.0 ys (s sec).children pri
        (same-Chain s one.0 ys (s sec).children (λ a. one.2.next_same a ∙ ground arith) d) k in
    (
      two.0,
      swap_runs fuel s one.0 two.0 pri sec f g one.1 two.1,
      both-HasSwapped s one.0 two.0 pri sec xs ys w f g n c d one.2 two.2,
    )
