-- ===== src/Node/Links.antt =====
-- mptcore/node: the links of a forest agree in both directions, and the operations keep that.
pub mod Behind
pub mod Front
pub mod Unlink
use mpt_base.Prelude.{ℕ, ◌≡◌, ◌==◌, ◌&&◌, not, if◌then◌else◌, arith}
use mpt_base.Node.{
  Store, gnode_after, gnode_before, node_unlink, bridge_next, bridge_prev, reset_links,
}

-- Every link of a node is matched by the link back.
pub record IsLinked (s : Store) : Type 0 where
  pub next_back : (p : ℕ) → ¬ (p ≡ 0) → ¬ ((s p).next ≡ 0) → (s (s p).next).prev ≡ p
  pub next_up : (p : ℕ) → ¬ (p ≡ 0) → ¬ ((s p).next ≡ 0) → (s (s p).next).parent ≡ (s p).parent
  pub prev_back : (p : ℕ) → ¬ (p ≡ 0) → ¬ ((s p).prev ≡ 0) → (s (s p).prev).next ≡ p
  pub child_up : (p : ℕ) → ¬ (p ≡ 0) → ¬ ((s p).children ≡ 0) → (s (s p).children).parent ≡ p
  pub child_first : (p : ℕ) → ¬ (p ≡ 0) → ¬ ((s p).children ≡ 0) → (s (s p).children).prev ≡ 0
  pub first_child :
      (p : ℕ) → ¬ (p ≡ 0) → ¬ ((s p).parent ≡ 0) → (s p).prev ≡ 0 → (s (s p).parent).children ≡ p

pub record IsAlone (s : Store) (p : ℕ) : Type 0 where
  pub is_node : ¬ (p ≡ 0)
  pub no_next : (s p).next ≡ 0
  pub no_prev : (s p).prev ≡ 0
  pub no_parent : (s p).parent ≡ 0
