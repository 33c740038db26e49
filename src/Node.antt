-- ===== src/Node.antt =====
-- mptcore/node: linked trees of nodes. A node is an address of the store, and 0 is the null pointer;
-- to follow it is a fault. The data reference and the identifier of a node are not modelled.
pub mod Links
pub mod Order
pub mod Swap
pub mod Traverse
mod Tests
use mpt_base.Prelude.{
  ℕ, zero, suc, ◌+◌, ◌-◌, Bool, true, false, not, ◌&&◌, ◌==◌, if◌then◌else◌, Run, done, fault,
  ◌>>=◌, Result, ok, err, bad_argument,
}
use mpt_base.Prelude.Int.{ℤ, pos, negsuc, is_neg}

-- `MPT_STRUCT(node)`, without the data reference and the identifier.
pub record LinksOf : Type 0 where
  pub next : ℕ
  pub prev : ℕ
  pub parent : ℕ
  pub children : ℕ

abbrev pub Store : Type 0
Store = ℕ → LinksOf

-- One field of one node written.
abbrev pub set_next : Store → (p v : ℕ) → Store
set_next s p v a = if a == p then record (s p) { next = v } else s a

abbrev pub set_prev : Store → (p v : ℕ) → Store
set_prev s p v a = if a == p then record (s p) { prev = v } else s a

abbrev pub set_parent : Store → (p v : ℕ) → Store
set_parent s p v a = if a == p then record (s p) { parent = v } else s a

abbrev pub set_children : Store → (p v : ℕ) → Store
set_children s p v a = if a == p then record (s p) { children = v } else s a

-- `mpt_gnode_after`; its result is `insert`.
unfoldable pub gnode_after : Store → (position insert : ℕ) → Store
gnode_after s position insert =
    if insert == 0
    then s
    else if position == 0
    then s
    else if insert == position
    then s
    else (let s₁ = set_prev s insert position in
        let s₂ = set_next s₁ insert (s₁ position).next in
        let s₃ = set_next s₂ position insert in
        let s₄ = set_parent s₃ insert (s₃ position).parent in
        let behind = (s₄ insert).next in if behind == 0 then s₄ else set_prev s₄ behind insert)

-- `mpt_gnode_before`
unfoldable pub gnode_before : Store → (position insert : ℕ) → Store
gnode_before s position insert =
    if insert == 0
    then s
    else if position == 0
    then s
    else if insert == position
    then s
    else (let s₁ = set_prev s insert (s position).prev in
        let s₂ = set_next s₁ insert position in
        let s₃ = set_prev s₂ position insert in
        let s₄ = set_parent s₃ insert (s₃ position).parent in
        let front = (s₄ insert).prev in
        let up = (s₄ insert).parent in
        if not (front == 0)
        then set_next s₄ front insert
        else if not (up == 0)
        then set_children s₄ up insert
        else s₄)

-- The neighbours of `curr` linked to each other: first the next node, then the one in front.
unfoldable pub bridge_next : Store → (curr : ℕ) → Store
bridge_next s curr = if (s curr).next == 0 then s else set_prev s (s curr).next (s curr).prev

unfoldable pub bridge_prev : Store → (next prev parent : ℕ) → Store
bridge_prev s next prev parent =
    if not (prev == 0)
    then set_next s prev next
    else if not (parent == 0)
    then set_children s parent next
    else s

-- The links of `curr` itself reset.
unfoldable pub reset_links : Store → (curr : ℕ) → Store
reset_links s curr = set_parent (set_next (set_prev s curr 0) curr 0) curr 0

-- `mpt_node_unlink`; the result is the next node.
unfoldable pub node_unlink : Store → (curr : ℕ) → Store × ℕ
node_unlink s curr =
    if curr == 0
    then (s, 0)
    else (let s₁ = bridge_next s curr in
        let s₂ = bridge_prev s₁ (s curr).next (s₁ curr).prev (s₁ curr).parent in
        (reset_links s₂ curr, (s curr).next))

-- The loops of `mpt_gnode_pos`: `n` steps back, `n` steps on, and to the end of the list. It is a
-- fault to run out of fuel.
unfoldable pub steps_back : Store → (n node : ℕ) → ℕ
steps_back s zero node = node
steps_back s (suc n) node = let rest = steps_back s n (s node).prev in if node == 0 then 0 else rest

unfoldable pub steps_on : Store → (n node : ℕ) → ℕ
steps_on s zero node = node
steps_on s (suc n) node = let rest = steps_on s n (s node).next in if node == 0 then 0 else rest

unfoldable pub list_end : Store → (fuel node : ℕ) → Run ℕ
list_end s zero node = fault
list_end s (suc fuel) node =
    let rest = list_end s fuel (s node).next in if (s node).next == 0 then done node else rest

-- `mpt_gnode_pos`
unfoldable pub gnode_pos : (fuel : ℕ) → Store → (node : ℕ) → ℤ → Run ℕ
gnode_pos fuel s node n = if node == 0 then done 0 else elim n [
  | negsuc k ↦ done (steps_back s (suc k) node)
  | pos zero ↦ list_end s fuel node
  | pos (suc k) ↦ done (steps_on s k node)
]

-- The search that an insertion is based on: `getnode(from, pos, node)`.
abbrev pub Search : Type 0
Search = (from : ℕ) → ℤ → Run ℕ

abbrev pub is_pos : ℤ → Bool
is_pos (pos zero) = false
is_pos (pos (suc n)) = true
is_pos (negsuc n) = false

abbrev pub is_start : ℤ → Bool
is_start (pos zero) = true
is_start (pos (suc zero)) = true
is_start (pos (suc (suc n))) = false
is_start (negsuc n) = false

abbrev pub negate : ℤ → ℤ
negate (pos zero) = pos zero
negate (pos (suc n)) = negsuc n
negate (negsuc n) = pos (suc n)

-- `pos < 1`: the node goes behind the one that was found, or in front of it.
abbrev pub place_by : Store → (tmp node : ℕ) → ℤ → Store
place_by s tmp node at_ = if is_pos at_ then gnode_before s tmp node else gnode_after s tmp node

-- The insertion with the node that was found, or at the other side when there is none.
unfoldable pub second_place :
    (fuel : ℕ) → Search → Store → (first : ℕ) → ℤ → (node start tmp : ℕ) → Run Store
second_place fuel get_node s first at_ node start tmp =
    if not (tmp == 0)
    then done (place_by s tmp node at_)
    else if not (start == 0)
    then (do
      tmp' ← get_node first (if is_neg at_ then pos 1 else pos 0)
      done (place_by s tmp' node (negate at_)))
    else (do tmp' ← gnode_pos fuel s first (pos 0); done (place_by s tmp' node (pos 0)))

-- The function `node_insert` of mptcore/node/node_insert.c.
unfoldable pub insert_by : (fuel : ℕ) → Search → Store → (first : ℕ) → ℤ → (node : ℕ) → Run Store
insert_by fuel get_node s first at_ node = do
  start ← get_node first (if is_pos at_ then pos 1 else pos 0)
  tmp ← if start == 0 then done 0 else if is_start at_ then done start else get_node start at_
  second_place fuel get_node s first at_ node start tmp

-- `mpt_gnode_add`
unfoldable pub gnode_add : (fuel : ℕ) → Store → (first : ℕ) → ℤ → (node : ℕ) → Run Store
gnode_add fuel s first at_ node =
    if first == 0
    then done s
    else if node == 0
    then done s
    else insert_by fuel (gnode_pos fuel s) s first at_ node

-- `mpt_gnode_insert`
unfoldable pub gnode_insert :
    (fuel : ℕ) → Store → (parent : ℕ) → ℤ → (node : ℕ) → Run (Store × Result ℕ)
gnode_insert fuel s parent at_ node =
    if node == 0
    then done (s, err bad_argument)
    else if parent == 0
    then fault
    else if (s parent).children == 0
    then done (set_parent (set_children s parent node) node parent, ok 0)
    else (do s' ← insert_by fuel (gnode_pos fuel s) s (s parent).children at_ node; done (s', ok 0))

-- The loops of `mpt_gnode_swap`.
unfoldable pub set_parents : (fuel : ℕ) → Store → (node parent : ℕ) → Run Store
set_parents zero s node parent = fault
set_parents (suc fuel) s node parent =
    let s' = set_parent s node parent in
    let rest = set_parents fuel s' (s' node).next parent in if node == 0 then done s else rest

-- `mpt_gnode_swap`
unfoldable pub gnode_swap : (fuel : ℕ) → Store → (pri sec : ℕ) → Run Store
gnode_swap fuel s pri sec = if pri == 0 then fault else if sec == 0 then fault else (do
  let pc = (s pri).children
  let sc = (s sec).children
  s' ← set_parents fuel (set_children (set_children s sec pc) pri sc) pc sec
  set_parents fuel s' sc pri)

-- `mpt_gnode_switch`
unfoldable pub gnode_switch : Store → (pri sec : ℕ) → Run Store
gnode_switch s pri sec =
    if pri == 0
    then fault
    else if sec == 0
    then fault
    else (let parent = (s pri).parent in
        let next = (s pri).next in
        let prev = (s pri).prev in
        let t₁ = (s sec).next in
        let s₁ = set_next s pri t₁ in
        let s₂ =
          if not (t₁ == 0)
          then set_prev s₁ t₁ pri
          else (let up = (s₁ sec).parent in
              let s' = set_parent s₁ pri up in
              if not (up == 0) && ((s' up).children == sec) then set_children s' up pri else s') in
        let t₂ = (s₂ sec).prev in
        let s₃ = set_prev s₂ pri t₂ in
        let s₄ = if t₂ == 0 then s₃ else set_next s₃ t₂ pri in
        let s₅ = set_next s₄ sec next in
        let s₆ =
          if not (next == 0)
          then set_prev s₅ next sec
          else (let s' = set_parent s₅ sec parent in
              if not (parent == 0) && ((s' parent).children == pri)
              then set_children s' parent sec
              else s') in
        let s₇ = set_prev s₆ sec prev in done (if prev == 0 then s₇ else set_next s₇ prev sec))
