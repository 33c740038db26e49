-- ===== src/Array/Counts.antt =====
-- mptcore/array and mptcore/misc/refcount.c: the counts of references for the arrays of a list.
use mpt_base.Prelude.{
  ℕ, ◌+◌, ◌-◌, ◌^◌, ◌<◌, ◌≡◌, refl, sym, ap, ◌∙◌, ◌==◌, if◌then◌else◌, Option, none, some, done,
  arith, Bool-cases, Option-cases, ◌⊎◌, inl, inr, List, [], ◌∷◌, ◌++◌,
}
use native.Mathlib.Decide.{ℕ_discrete}
use mpt_base.Array.{Buffer}
use mpt_base.Array.Shared.{Store, put_buffer, load, unref, addref, refcount_lower, refcount_raise}
use mpt_base.Array.Held.{
  Moves, refs, count, one_if, refs-put_buffer, put_buffer_other, put_buffer_here,
}

-- The arrays of a list that have the buffer at an address.
unfoldable pub holders : List ℕ → ℕ → ℕ
holders [] q = 0
holders (p ∷ ps) q = one_if (q == p) + holders ps q

-- Each buffer counts the arrays that have it.
abbrev pub IsCounted : Store → List ℕ → Type 0
IsCounted s arrays = (q : ℕ) → ¬ (q ≡ 0) → refs s q ≡ holders arrays q

pub holders-middle :
    (xs ys : List ℕ) (p q : ℕ) → holders (xs ++ p ∷ ys) q ≡ one_if (q == p) + holders (xs ++ ys) q
unfolding holders
holders-middle [] ys p q = refl
holders-middle (x ∷ xs) ys p q = let rest = holders-middle xs ys p q in omega arith

-- A reference that one array moves from `p` to `p'` keeps the counts.
pub Moves-IsCounted :
    (s t : Store) (xs ys : List ℕ) (p p' : ℕ)
    → IsCounted s (xs ++ p ∷ ys)
    → Moves s p t p'
    → IsCounted t (xs ++ p' ∷ ys)
Moves-IsCounted s t xs ys p p' c m q n =
    omega (arith, c q n, m q n, holders-middle xs ys p q, holders-middle xs ys p' q)

pub load-is : (s : Store) (p : ℕ) (b : Buffer) → ¬ (p ≡ 0) → s p ≡ some b → load s p ≡ done b
load-is s p b n is = ground arith

pub there : (s : Store) (p : ℕ) → 0 < refs s p → (b : Buffer) × (s p ≡ some b) × (0 < b.refs)
there s p h = elim (Option-cases (s p)) [
  | inl e ↦ (let no : ⊥ = ground (arith, ap count e) in elim no [ ])
  | inr (b, e) ↦ (b, e, omega (arith, ap count e))
]

-- The content of a buffer without its count.
abbrev pub content : Option Buffer → Option Buffer
content none = none
content (some b) = some (record b { refs = 0 })

-- Each buffer has the content it had, or is free.
abbrev pub KeepsContent : Store → Store → Type 0
KeepsContent s t = (q : ℕ) → (t q ≡ none) ⊎ (content (t q) ≡ content (s q))

pub put_buffer-KeepsContent :
    (s : Store) (p : ℕ) (o : Option Buffer)
    → (o ≡ none) ⊎ (content o ≡ content (s p))
    → KeepsContent s (put_buffer s p o)
put_buffer-KeepsContent s p o h q = elim (ℕ_discrete q p) [
  | yes e ↦
      (let is : put_buffer s p o q ≡ o = rw (e) (put_buffer_here s p o) in
        elim h [
          | inl f ↦ inl (is ∙ f)
          | inr f ↦ inr (ap content is ∙ (f ∙ ap (λ k. content (s k)) (sym e)))
        ])
  | no e ↦ inr (ap content (put_buffer_other s p q o e))
]

-- What a reference given up leaves of a buffer.
abbrev pub left : Buffer → Option Buffer
left b = if b.refs - 1 == 0 then none else some (record b { refs = b.refs - 1 })

-- The reference given up, which may free the buffer.
module _ (s : Store) (p : ℕ) (b : Buffer) (n : ¬ (p ≡ 0)) (is : s p ≡ some b) (h : 0 < b.refs) where
  pub unref_runs : unref s p ≡ done (put_buffer s p (left b))
  unfolding unref refcount_lower
  unref_runs = ground arith

  unref-count : count (left b) ≡ b.refs - 1
  unref-count = ground arith

  pub unref-Moves : Moves s p (put_buffer s p (left b)) 0
  unref-Moves q w = ground (arith, refs-put_buffer s p q (left b), unref-count, ap count is)

  pub unref-KeepsContent : KeepsContent s (put_buffer s p (left b))
  unref-KeepsContent = put_buffer-KeepsContent s p (left b) (elim (Bool-cases (b.refs - 1 == 0)) [
    | inl e ↦ inl (rw (e) refl)
    | inr e ↦ inr (rw (e, is) refl)
  ])

module _ (s : Store) (p : ℕ) (b : Buffer) (n : ¬ (p ≡ 0)) (is : s p ≡ some b) (h : 0 < b.refs)
    (k : b.refs < 2 ^ 64 - 1) where
  pub more : Option Buffer
  more = some (record b { refs = b.refs + 1 })

  pub addref_runs : addref s p ≡ done (put_buffer s p more, b.refs + 1)
  unfolding addref refcount_raise more
  addref_runs = ground arith

  pub addref-Moves : Moves s 0 (put_buffer s p more) p
  unfolding more
  addref-Moves q w = ground (arith, refs-put_buffer s p q more, ap count is)

  pub addref-content : (q : ℕ) → content (put_buffer s p more q) ≡ content (s q)
  unfolding more
  addref-content q = elim (ℕ_discrete q p) [
    | yes e ↦ rw (e) (ap content (put_buffer_here s p more) ∙ ap content (sym is))
    | no e ↦ ap content (put_buffer_other s p q more e)
  ]
