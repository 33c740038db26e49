-- ===== src/Config/Path/Split.antt =====
-- The elements of a text between separators, and the search for the first of them.
use mpt_base.Prelude.{
  ℕ, zero, suc, ◌+◌, ◌-◌, ◌<◌, ◌≡◌, refl, List, [], ◌∷◌, none, some, ◌==◌, if◌then◌else◌, arith,
  ==-false, Option-cases, inl, inr,
}
use native.Mathlib.Decide.{ℕ_discrete}
use mpt_base.Prelude.Mem.{Bytes}
use mpt_base.Prelude.Slice.{slice}
use mpt_base.Config.Path.{memchr}

-- A character in front of the first element.
abbrev pub push : ℕ → List (List ℕ) → List (List ℕ)
push c [] = (c ∷ []) ∷ []
push c (x ∷ xs) = (c ∷ x) ∷ xs

unfoldable pub split : (sep : ℕ) → List ℕ → List (List ℕ)
split sep [] = [] ∷ []
split sep (c ∷ s) = let rest = split sep s in if c == sep then [] ∷ rest else push c rest

-- No separator: the text is the only element.
pub split-none :
    (m : Bytes) (a sep n : ℕ) → memchr m a sep n ≡ none → split sep (slice m a n) ≡ slice m a n ∷ []
unfolding memchr split
split-none m a sep zero e = refl
split-none m a sep (suc n) e = elim (ℕ_discrete (m a) sep) [
  | yes z ↦ ground arith
  | no nz ↦ elim (Option-cases (memchr m (a + 1) sep n)) [
    | inl h ↦ rw (==-false (m a) sep nz, split-none m (a + 1) sep n h) refl
    | inr (k, h) ↦ ground arith
  ]
]

pub split-some :
    (m : Bytes) (a sep n k : ℕ)
    → memchr m a sep n ≡ some k
    → (k < n)
      × (split sep (slice m a n) ≡ slice m a k ∷ split sep (slice m (a + (k + 1)) (n - (k + 1))))
unfolding memchr split
split-some m a sep zero k e = cc
split-some m a sep (suc n) k e = elim (ℕ_discrete (m a) sep) [
  | yes z ↦
      let first : k ≡ 0 = ground arith in
      let one : a + (0 + 1) ≡ a + 1 = omega arith in
      let rest : suc n - (0 + 1) ≡ n = omega arith in
      rw (first, one, rest) (omega arith, ground arith)
  | no nz ↦ elim (Option-cases (memchr m (a + 1) sep n)) [
    | inl h ↦ ground arith
    | inr (j, h) ↦
        let next : k ≡ suc j = ground arith in
        let more = split-some m (a + 1) sep n j h in
        let at_ : a + (suc j + 1) ≡ a + 1 + (j + 1) = omega arith in
        let rest : suc n - (suc j + 1) ≡ n - (j + 1) = omega arith in
        let bound = more.0 in
        rw (next, ==-false (m a) sep nz, more.1, at_, rest) (omega arith, refl)
  ]
]
