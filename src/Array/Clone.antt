-- ===== src/Array/Clone.antt =====
-- mptcore/array/array_clone.c: the references of arrays to buffers are counted.
use mpt_base.Prelude.{
  ℕ, ◌+◌, ◌-◌, ◌^◌, ◌<◌, ◌≡◌, refl, sym, ap, ◌∙◌, true, false, Result, ok, err, bad_type, ◌==◌,
  Option, none, some, Run, done, arith, Bool-cases, ◌⊎◌, inl, inr, List, ◌∷◌, ◌++◌,
}
use native.Mathlib.Decide.{ℕ_discrete}
use mpt_base.Array.{Buffer, same_traits}
use mpt_base.Array.Shared.{Store, Outcome, put_buffer, unref, addref, leaves, array_clone}
use mpt_base.Array.Held.{Moves, refs, count, one_if, put_buffer_other}
use mpt_base.Array.Counts.{
  holders, IsCounted, holders-middle, Moves-IsCounted, load-is, there, content, KeepsContent, left,
  unref_runs, unref-Moves, unref-KeepsContent, more, addref_runs, addref-Moves, addref-content,
}

-- The buffer that an array is to have, null for no source.
abbrev pub target : Option ℕ → ℕ
target none = 0
target (some from) = from

-- What a clone ends with, for one array among others.
pub data Clones (s : Store) (xs : List ℕ) (p : ℕ) (ys : List ℕ) (o : Option ℕ)
    (r : Run (Outcome (Result ℕ))) : Type 0 where
  clone_refused :
      (b c : Buffer)
      → s p ≡ some b
      → s (target o) ≡ some c
      → same_traits c.traits b.traits ≡ false
      → r ≡ leaves s p (err bad_type)
      → Clones s xs p ys o r
  cloned :
      (t : Store) (n : ℕ)
      → r ≡ leaves t (target o) (ok n)
      → IsCounted t (xs ++ target o ∷ ys)
      → KeepsContent s t
      → Clones s xs p ys o r

Moves-trans : (s u t : Store) (p from : ℕ) → Moves s 0 u from → Moves u p t 0 → Moves s p t from
Moves-trans s u t p from f g q n = ground (arith, f q n, g q n)

module _ (s : Store) (xs : List ℕ) (p : ℕ) (ys : List ℕ) (c : IsCounted s (xs ++ p ∷ ys)) where
  pub array_held : ¬ (p ≡ 0) → (b : Buffer) × (s p ≡ some b) × (0 < b.refs)
  array_held n = there s p (
      let here : one_if (p == p) ≡ 1 = ground arith in
      omega (arith, c p n, holders-middle xs ys p p, here))

  none_empty : p ≡ 0 → array_clone s p none ≡ leaves s 0 (ok 0)
  unfolding array_clone
  none_empty e = ground arith

  none_held :
      (t : Store) → ¬ (p ≡ 0) → unref s p ≡ done t → array_clone s p none ≡ leaves t 0 (ok 2)
  unfolding array_clone
  none_held t n e = ground arith

  IsCounted-empty : p ≡ 0 → IsCounted s (xs ++ 0 ∷ ys)
  IsCounted-empty e = λ q n. c q n ∙ ap (λ k. holders (xs ++ k ∷ ys) q) e

  clone_none : Clones s xs p ys none (array_clone s p none)
  clone_none = elim (ℕ_discrete p 0) [
    | yes e ↦ cloned s 0 (none_empty e) (IsCounted-empty e) (λ q. inr refl)
    | no n ↦
        (let (b, is, h) = array_held n in
          cloned _ 2 (none_held _ n (unref_runs s p b n is h))
            (Moves-IsCounted s (put_buffer s p (left b)) xs ys p 0 c (unref-Moves s p b n is h))
            (unref-KeepsContent s p b n is h))
  ]

  module _ (from : ℕ) (w : ¬ (from ≡ 0)) (d : Buffer) (set : s from ≡ some d) (h : 0 < d.refs)
      (k : d.refs < 2 ^ 64 - 1) where
    same_buffer : from ≡ p → array_clone s p (some from) ≡ leaves s p (ok 0)
    unfolding array_clone
    same_buffer e = ground arith

    abbrev raised : Store
    raised = put_buffer s from (more s from d w set h k)

    raised_runs : addref s from ≡ done (raised, d.refs + 1)
    raised_runs = addref_runs s from d w set h k

    to_empty : p ≡ 0 → array_clone s p (some from) ≡ leaves raised from (ok 1)
    unfolding array_clone
    to_empty e =
        let no : (from == p) ≡ false = ground arith in
        let null : (p == 0) ≡ true = ground arith in
        let some_refs : (d.refs + 1 == 0) ≡ false = ground arith in
        rw (no, load-is s from d w set, null, raised_runs, some_refs) refl

    other_type :
        (b : Buffer)
        → ¬ (p ≡ 0)
        → ¬ (from ≡ p)
        → s p ≡ some b
        → same_traits d.traits b.traits ≡ false
        → array_clone s p (some from) ≡ leaves s p (err bad_type)
    unfolding array_clone
    other_type b n x is e = ground arith

    to_held :
        (b : Buffer) (t : Store)
        → ¬ (p ≡ 0)
        → ¬ (from ≡ p)
        → s p ≡ some b
        → same_traits d.traits b.traits ≡ true
        → unref raised p ≡ done t
        → array_clone s p (some from) ≡ leaves t from (ok 3)
    unfolding array_clone
    to_held b t n x is e f =
        let no : (from == p) ≡ false = ground arith in
        let not_null : (p == 0) ≡ false = ground arith in
        let some_refs : (d.refs + 1 == 0) ≡ false = ground arith in
        rw (no, load-is s from d w set, not_null, is, e, raised_runs, some_refs, f) refl

    -- The buffer in the array is left after the other one is taken.
    left_runs :
        (b : Buffer) (n : ¬ (p ≡ 0)) → ¬ (from ≡ p) → (is : s p ≡ some b) → raised p ≡ some b
    left_runs b n x is = put_buffer_other s from p _ (λ e. x (sym e)) ∙ is

    after :
        (t : Store) (q : ℕ)
        → (t q ≡ none) ⊎ (content (t q) ≡ content (raised q))
        → (t q ≡ none) ⊎ (content (t q) ≡ content (s q))
    after t q (inl e) = inl e
    after t q (inr e) = inr (e ∙ addref-content s from d w set h k q)

    clone_some : Clones s xs p ys (some from) (array_clone s p (some from))
    clone_some = elim (ℕ_discrete from p) [
      | yes e ↦
          cloned s 0 (same_buffer e ∙ ap (λ k. leaves s k (ok 0)) (sym e)) (rw (e) c)
            (λ q. inr refl)
      | no x ↦ elim (ℕ_discrete p 0) [
        | yes e ↦
            cloned raised 1 (to_empty e)
              (Moves-IsCounted s raised xs ys p from c (rw (e) (addref-Moves s from d w set h k)))
              (λ q. inr (addref-content s from d w set h k q))
        | no n ↦
            (let (b, is, l) = array_held n in
              let here = left_runs b n x is in
              elim (Bool-cases (same_traits d.traits b.traits)) [
                | inl e ↦
                    cloned _ 3 (to_held b _ n x is e (unref_runs raised p b n here l))
                      (Moves-IsCounted s (put_buffer raised p (left b)) xs ys p from c (
                        Moves-trans s raised (put_buffer raised p (left b)) p from
                          (addref-Moves s from d w set h k) (unref-Moves raised p b n here l)))
                      (λ q.
                        after (put_buffer raised p (left b)) q
                          (unref-KeepsContent raised p b n here l q))
                | inr e ↦ clone_refused b d is set e (other_type b n x is e)
              ])
      ]
    ]

  -- One array of a list, by which the buffers' references are counted, that becomes a clone of a
  -- counted buffer, whose count is below 2 ^ 64 - 1, or of none: the call runs without a fault and
  -- ends with the array on that buffer and with the counts for the list as it is then, each buffer
  -- with its content or freed; or the types of the buffers differ, and nothing changes.
  pub array_clone-Clones :
      (o : Option ℕ)
      → ((from : ℕ) → o ≡ some from → ¬ (from ≡ 0) × (0 < refs s from) × (refs s from < 2 ^ 64 - 1))
      → Clones s xs p ys o (array_clone s p o)
  array_clone-Clones none h = clone_none
  array_clone-Clones (some from) h =
      let (w, l, k) = h from refl in
      let (d, set, m) = there s from l in clone_some from w d set m (omega (arith, ap count set))
