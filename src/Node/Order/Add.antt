-- ===== src/Node/Order/Add.antt =====
-- mptcore/node/node_insert.c: `mpt_gnode_add` on a chain of nodes.
use mpt_base.Prelude.{
  ℕ, zero, suc, ◌+◌, ◌-◌, ◌<◌, ◌≡◌, sym, List, [], ◌∷◌, length, arith, ltb, if◌then◌else◌, done,
  ◌⊎◌, inl, inr,
}
use mpt_base.Prelude.Int.{ℤ, pos, negsuc}
use mpt_base.Node.{Store, gnode_after, gnode_before, gnode_pos, gnode_add, insert_by, second_place}
use mpt_base.Node.Order.{nth, Chain-null}
use mpt_base.Node.Order.Steps.{gnode_pos_last, gnode_pos_from_first, gnode_pos_back}
use mpt_base.Node.Order.Place.{order_cases}
use mpt_base.Node.Order.Insert.{IsList, HasInserted, behind-HasInserted, in_front-HasInserted, here}

-- The index that an insertion at a position gives in a list of `n` nodes.
abbrev pub place_index : (n : ℕ) → ℤ → ℕ
place_index n (pos zero) = n
place_index n (pos (suc k)) = if ltb k n then k else n
place_index n (negsuc k) = n - 1 - k

less_or_more : (k n : ℕ) → (k < n) ⊎ (n < k + 1)
less_or_more k n = elim (order_cases k n) [
  | inl h ↦ inl h
  | inr e ↦ elim e [ inl d ↦ inr (omega arith) | inr h ↦ inr (omega arith) ]
]

at_index :
    {s t : Store} {first node : ℕ} {xs : List ℕ} {i k : ℕ}
    → i ≡ k
    → HasInserted s t first node i xs
    → HasInserted s t first node k xs
at_index e v = rw (sym e) v

module _ (fuel : ℕ) (s : Store) (x : ℕ) (xs : List ℕ) (first node : ℕ)
    (l : IsList s first node (x ∷ xs)) (h : length xs < fuel) where
  AddsAt : ℤ → Type 0
  AddsAt at_ =
      (t : Store) × (gnode_add fuel s first at_ node ≡ done t)
      × HasInserted s t first node (place_index (length (x ∷ xs)) at_) (x ∷ xs)

  member : ℕ → ℕ
  member i = nth (x ∷ xs) i

  last : gnode_pos fuel s first (pos 0) ≡ done (member (length xs))
  unfolding member
  last = gnode_pos_last fuel s x xs first l.chain h

  from_first : (k : ℕ) → gnode_pos fuel s first (pos (suc k)) ≡ done (member k)
  unfolding member
  from_first k = gnode_pos_from_first fuel s x xs first l.chain k

  from_last :
      (k : ℕ)
      → gnode_pos fuel s (member (length xs)) (negsuc k)
        ≡ done (if ltb (length xs) (suc k) then 0 else member (length xs - suc k))
  unfolding member
  from_last k =
      gnode_pos_back fuel s (x ∷ xs) first k (length xs) l.linked l.chain l.no_prev (omega arith)

  a_node : (i : ℕ) → i < length xs + 1 → ¬ (member i ≡ 0)
  unfolding member
  a_node i k = here s (x ∷ xs) first node i l (omega arith)

  behind :
      (i : ℕ)
      → i < length xs + 1
      → HasInserted s (gnode_after s (member i) node) first node (suc i) (x ∷ xs)
  unfolding member
  behind i k = behind-HasInserted s (x ∷ xs) first node i l (omega arith)

  in_front :
      (i : ℕ)
      → i < length xs + 1
      → HasInserted s (gnode_before s (member i) node) first node i (x ∷ xs)
  unfolding member
  in_front i k = in_front-HasInserted s (x ∷ xs) first node i l (omega arith)

  add_last : AddsAt (pos 0)
  unfolding AddsAt gnode_add insert_by second_place
  add_last = (
    gnode_after s (member (length xs)) node,
    ground (arith, last, l.chain.1, l.alone.is_node, a_node (length xs)),
    at_index (omega arith) (behind (length xs) (omega arith)),
  )

  add_first : AddsAt (pos 1)
  unfolding AddsAt gnode_add insert_by second_place
  add_first = (
    gnode_before s (member 0) node,
    ground (arith, from_first 0, l.chain.1, l.alone.is_node, a_node 0),
    at_index (ground arith) (in_front 0 (omega arith)),
  )

  -- The search, from either end, that finds a node.
  found_from_first :
      (k : ℕ)
      → k < length xs
      → insert_by fuel (gnode_pos fuel s) s first (pos (suc (suc k))) node
        ≡ done (gnode_before s (member (suc k)) node)
  unfolding insert_by second_place member
  found_from_first k g =
      ground
        (arith, from_first 0, from_first (suc k), l.chain.0, l.chain.1, a_node (suc k), a_node 0)

  add_inside : (k : ℕ) → k < length xs → AddsAt (pos (suc (suc k)))
  unfolding AddsAt gnode_add
  add_inside k g = (
    gnode_before s (member (suc k)) node,
    ground (arith, found_from_first k g, l.chain.1, l.alone.is_node),
    at_index (ground arith) (in_front (suc k) (omega arith)),
  )

  found_behind :
      (k : ℕ)
      → length xs < k + 1
      → insert_by fuel (gnode_pos fuel s) s first (pos (suc (suc k))) node
        ≡ done (gnode_after s (member (length xs)) node)
  unfolding insert_by second_place member
  found_behind k g = ground (
    arith,
    from_first 0,
    from_first (suc k),
    Chain-null s (x ∷ xs) first (suc k) l.chain (omega arith),
    last,
    l.chain.0,
    l.chain.1,
    a_node 0,
  )

  found_from_last :
      (k : ℕ)
      → k < length xs
      → insert_by fuel (gnode_pos fuel s) s first (negsuc k) node
        ≡ done (gnode_after s (member (length xs - suc k)) node)
  unfolding insert_by second_place
  found_from_last k g =
      ground
        (arith, last, from_last k, a_node (length xs), a_node (length xs - suc k) (omega arith))

  found_in_front :
      (k : ℕ)
      → length xs < k + 1
      → insert_by fuel (gnode_pos fuel s) s first (negsuc k) node
        ≡ done (gnode_before s (member 0) node)
  unfolding insert_by second_place
  found_in_front k g = ground (arith, last, from_last k, a_node (length xs), from_first 0)

  add_behind : (k : ℕ) → length xs < k + 1 → AddsAt (pos (suc (suc k)))
  unfolding AddsAt gnode_add
  add_behind k g = (
    gnode_after s (member (length xs)) node,
    ground (arith, found_behind k g, l.chain.1, l.alone.is_node),
    at_index (ground arith) (behind (length xs) (omega arith)),
  )

  add_back : (k : ℕ) → k < length xs → AddsAt (negsuc k)
  unfolding AddsAt gnode_add
  add_back k g = (
    gnode_after s (member (length xs - suc k)) node,
    ground (arith, found_from_last k g, l.chain.1, l.alone.is_node),
    at_index (omega arith) (behind (length xs - suc k) (omega arith)),
  )

  add_in_front : (k : ℕ) → length xs < k + 1 → AddsAt (negsuc k)
  unfolding AddsAt gnode_add
  add_in_front k g = (
    gnode_before s (member 0) node,
    ground (arith, found_in_front k g, l.chain.1, l.alone.is_node),
    at_index (omega arith) (in_front 0 (omega arith)),
  )

  add_every : (at_ : ℤ) → AddsAt at_
  add_every (pos zero) = add_last
  add_every (pos (suc zero)) = add_first
  add_every (pos (suc (suc k))) = elim (less_or_more k (length xs)) [
    | inl g ↦ add_inside k g
    | inr g ↦ add_behind k g
  ]
  add_every (negsuc k) = elim (less_or_more k (length xs)) [
    | inl g ↦ add_back k g
    | inr g ↦ add_in_front k g
  ]

-- `mpt_gnode_add` inserts a lone node into a list of at most `fuel` nodes at the index that its
-- position says; the list starts without a predecessor and below the same parent, and the links of
-- the forest stay matched.
pub gnode_add_lem :
    (fuel : ℕ) (s : Store) (xs : List ℕ) (first node : ℕ) (at_ : ℤ)
    → ¬ (first ≡ 0)
    → IsList s first node xs
    → length xs < fuel + 1
    → (t : Store) × (gnode_add fuel s first at_ node ≡ done t)
      × HasInserted s t first node (place_index (length xs) at_) xs
unfolding AddsAt
gnode_add_lem fuel s [] first node at_ f l h = elim (f l.chain) [ ]
gnode_add_lem fuel s (x ∷ xs) first node at_ f l h =
    add_every fuel s x xs first node l (omega arith) at_
