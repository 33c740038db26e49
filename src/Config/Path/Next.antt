-- ===== src/Config/Path/Next.antt =====
-- The elements that a text path holds, and the removal of the first.
use mpt_base.Prelude.{
  ℕ, ◌+◌, ◌-◌, ◌^◌, ◌%◌, ◌<◌, ◌≤◌, ◌≡◌, ◌≢◌, refl, List, [], ◌∷◌, true, false, none, some, ◌==◌,
  if◌then◌else◌, arith, ==-false, ==_iff, Option-cases, ◌⊎◌, inl, inr, ok, ap, ◌∙◌,
}
use native.Mathlib.Decide.{ℕ_discrete, dec_lt}
use mpt_base.Prelude.Int.{as_int, as_int_small}
use mpt_base.Prelude.Mem.{Bytes, sub_size}
use mpt_base.Prelude.Slice.{slice}
use mpt_base.Config.Path.{ElementPath, memchr, is_binary, path_next}
use mpt_base.Config.Path.Split.{split, split-none, split-some}

-- The elements of a path over the text `m`; a path without length has none.
abbrev pub elements : Bytes → ElementPath → List (List ℕ)
elements m p = if p.len == 0 then [] else split p.sep (slice m p.off (p.len - 1))

-- A text path over `m`: its first length is unknown or that of the first of several elements, and
-- its end is an address.
pub record IsText (m : Bytes) (p : ElementPath) : Type 0 where
  pub base : p.base ≡ some m
  pub text : is_binary p ≡ false
  pub first : p.first ≢ 0 → memchr m p.off p.sep (p.len - 1) ≡ some p.first
  pub bound : p.off + p.len < 2 ^ 64

-- A path behind `skip` characters.
abbrev behind : ElementPath → (skip first : ℕ) → ElementPath
behind p skip f = record p { first = f; off = (p.off + skip) % 2 ^ 64; len = sub_size p.len skip }

off-lem : (a n k : ℕ) → a + n < 2 ^ 64 → k ≤ n → (a + k) % 2 ^ 64 ≡ a + k
off-lem a n k h l = omega arith

sub_size-lem : (a n k : ℕ) → a + n < 2 ^ 64 → k ≤ n → sub_size n k ≡ n - k
sub_size-lem a n k h l = omega arith

behind-found :
    (m : Bytes) (p : ElementPath) (k f : ℕ)
    → IsText m p
    → 0 < p.len
    → f ≡ 0
    → memchr m p.off p.sep (p.len - 1) ≡ some k
    → (elements m p ≡ slice m p.off k ∷ elements m (behind p (k + 1) f))
      × IsText m (behind p (k + 1) f)
behind-found m p k f h l z found =
    let parts = split-some m p.off p.sep (p.len - 1) k found in
    let bound = h.bound in
    let less = parts.0 in
    let o = off-lem p.off p.len (k + 1) bound (omega arith) in
    let n = sub_size-lem p.off p.len (k + 1) bound (omega arith) in
    let rest : p.len - (k + 1) - 1 ≡ p.len - 1 - (k + 1) = omega arith in
    (
      rw (o, n, ==-false p.len 0 (omega arith), ==-false (p.len - (k + 1)) 0 (omega arith), rest)
          parts.1,
      record {
        base = h.base;
        text = h.text;
        first = λ ne. absurd (ne z);
        bound = rw (o, n) (omega arith);
      },
    )

behind-last :
    (m : Bytes) (p : ElementPath)
    → IsText m p
    → 0 < p.len
    → p.first ≡ 0
    → memchr m p.off p.sep (p.len - 1) ≡ none
    → (elements m p ≡ slice m p.off (p.len - 1) ∷ elements m (behind p p.len p.first))
      × IsText m (behind p p.len p.first)
behind-last m p h l z lost =
    let bound = h.bound in
    let o = off-lem p.off p.len p.len bound (omega arith) in
    let n : sub_size p.len p.len ≡ 0 = omega arith in
    (
      rw (n, ==-false p.len 0 (omega arith)) (split-none m p.off p.sep (p.len - 1) lost),
      record {
        base = h.base;
        text = h.text;
        first = λ ne. absurd (ne z);
        bound = rw (o, n) (omega arith);
      },
    )

==-true : {a b : ℕ} → a ≡ b → (a == b) ≡ true
==-true {a} {b} e = (==_iff a b).1 e

module _ (p : ElementPath) (m : Bytes) (b : p.base ≡ some m) (t : is_binary p ≡ false)
    (l : 0 < p.len) where
  next-first : p.first ≢ 0 → path_next p ≡ (behind p (p.first + 1) 0, as_int p.first)
  unfolding path_next
  next-first ne = simp (b, t, ==-false p.len 0 (omega arith), ==-false p.first 0 ne) refl

  next-some :
      (k : ℕ)
      → p.first ≡ 0
      → memchr m p.off p.sep (p.len - 1) ≡ some k
      → path_next p ≡ (behind p (k + 1) p.first, as_int k)
  unfolding path_next
  next-some k e h = simp (b, t, ==-false p.len 0 (omega arith), ==-true e, h) refl

  next-none :
      p.first ≡ 0
      → memchr m p.off p.sep (p.len - 1) ≡ none
      → path_next p ≡ (behind p p.len p.first, as_int (p.len - 1))
  unfolding path_next
  next-none e h = simp (b, t, ==-false p.len 0 (omega arith), ==-true e, h) refl

as_length :
    (p : ElementPath) {p' : ElementPath} {n : ℕ}
    → path_next p ≡ (p', as_int n)
    → (2 ^ 31 ≤ n) ⊎ (path_next p ≡ (p', ok n))
as_length p {p'} {n} e = elim (dec_lt n (2 ^ 31)) [
  | yes small ↦ inr (e ∙ ap (λ r. (p', r)) (as_int_small n small))
  | no large ↦ inl (omega arith)
]

-- Removing an element from a text path that is not empty takes off the first of its elements, which
-- stands at the old offset; what is left is a text path with the other elements. The result is the
-- length of that element as an int, which is the length itself below 2^31.
pub path_next_lem :
    (m : Bytes) (p : ElementPath)
    → IsText m p
    → 0 < p.len
    → (p' : ElementPath) × (n : ℕ) × (path_next p ≡ (p', as_int n))
      × ((2 ^ 31 ≤ n) ⊎ (path_next p ≡ (p', ok n)))
      × (elements m p ≡ slice m p.off n ∷ elements m p')
      × IsText m p'
path_next_lem m p h l = elim (ℕ_discrete p.first 0) [
  | no ne ↦
      let parts = behind-found m p p.first 0 h l refl (h.first ne) in
      let e = next-first p m h.base h.text l ne in
      (behind p (p.first + 1) 0, p.first, e, as_length p e, parts.0, parts.1)
  | yes z ↦ elim (Option-cases (memchr m p.off p.sep (p.len - 1))) [
    | inl none_ ↦
        let parts = behind-last m p h l z none_ in
        let e = next-none p m h.base h.text l z none_ in
        (behind p p.len p.first, p.len - 1, e, as_length p e, parts.0, parts.1)
    | inr (k, found) ↦
        let parts = behind-found m p k p.first h l z found in
        let e = next-some p m h.base h.text l k z found in
        (behind p (k + 1) p.first, k, e, as_length p e, parts.0, parts.1)
  ]
]
