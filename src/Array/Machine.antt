-- ===== src/Array/Machine.antt =====
-- mptcore/array: the arrays of a program over its calls, with the buffers that they share.
use mathlib.Core.Path.{subst}
use mpt_base.Prelude.{
  ℕ, ◌-◌, ◌^◌, ◌<◌, ◌≡◌, sym, ap, ◌∙◌, true, Result, Option, none, some, Run, done, fault, arith,
  Option-cases, inl, inr, List, ◌∷◌, ◌++◌,
}
use native.Mathlib.Decide.{ℕ_discrete}
use mpt_base.Array.{Buffer, Memory, is_aligned}
use mpt_base.Array.Content.{IsValid}
use mpt_base.Array.Shared.{Store, Outcome, array_clone}
use mpt_base.Array.Held.{IsHeld, IsFree, refs, count}
use mpt_base.Array.Owned.{Owned, Changes, unchanged, changed}
use mpt_base.Array.Counts.{IsCounted, KeepsContent, content, Moves-IsCounted}
use mpt_base.Array.Clone.{Clones, clone_refused, cloned, array_clone-Clones, array_held}
use mpt_base.Array.Calls.{
  Call, call, Given, given_none, given_some, Called, called, Called-new, Called-old,
}

-- A buffer with its content inside, in whole elements.
abbrev pub IsWell : Buffer → Type 0
IsWell b = IsValid b × (is_aligned b.traits b.used 0 0 ≡ true)

-- The counts are those of the arrays, and all buffers are well.
pub record IsSound (s : Store) (arrays : List ℕ) : Type 0 where
  pub counted : IsCounted s arrays
  pub well : (q : ℕ) (b : Buffer) → ¬ (q ≡ 0) → s q ≡ some b → IsWell b

some-inj : {b c : Buffer} → some b ≡ some c → b ≡ c
some-inj {b} e = ap (λ o. elim o [ none ↦ b | some d ↦ d ]) e

-- The buffer left behind by a change, and all others, are well.
module _ (s : Store) (p : ℕ) (b : Buffer) (t : Store) (p' : ℕ) (c : Buffer) (o : Owned s p b t p' c)
    (held : ¬ (p ≡ 0) → IsHeld s p b) where
  left-IsWell : (d : Buffer) → ¬ (p ≡ 0) → ¬ (p' ≡ p) → t p ≡ some d → IsWell d
  left-IsWell d z n e = elim (ℕ_discrete b.refs 1) [
    | yes k ↦
        (let no : none ≡ some d = sym (o.gone k n) ∙ e in
          let none_left : ⊥ = ground (arith, no) in elim none_left [ ])
    | no k ↦
        (let h = held z in
          let (u, f) = o.shared (omega (arith, h.counted)) in
          subst IsWell (some-inj (sym f ∙ e))
            (record { used_in = h.valid.used_in; small = h.valid.small }, h.whole))
  ]

  IsWell-kept :
      ((q : ℕ) (b : Buffer) → ¬ (q ≡ 0) → s q ≡ some b → IsWell b)
      → (q : ℕ) (d : Buffer) → ¬ (q ≡ 0)
      → t q ≡ some d
      → IsWell d
  IsWell-kept w q d z e = elim (ℕ_discrete q p') [
    | yes f ↦
        (let same : c ≡ d = some-inj (sym o.held.is ∙ (ap t (sym f) ∙ e)) in
          subst IsWell same (o.held.valid, o.held.whole))
    | no n ↦ elim (ℕ_discrete q p) [
      | yes g ↦ left-IsWell d (λ v. z (g ∙ v)) (λ v. n (g ∙ sym v)) (ap t (sym g) ∙ e)
      | no u ↦ w q d z (sym (o.others q u n) ∙ e)
    ]
  ]

-- The buffers keep what makes them well over a clone.
content-IsWell :
    (s t : Store)
    → KeepsContent s t
    → ((q : ℕ) (b : Buffer) → ¬ (q ≡ 0) → s q ≡ some b → IsWell b)
    → (q : ℕ) (d : Buffer) → ¬ (q ≡ 0)
    → t q ≡ some d
    → IsWell d
content-IsWell s t keeps w q d z e = elim (keeps q) [
  | inl f ↦ (let none_left : ⊥ = ground (arith, sym f ∙ e) in elim none_left [ ])
  | inr f ↦ elim (Option-cases (s q)) [
    | inl g ↦
        (let none_left : ⊥ = ground (arith, sym (ap content e) ∙ (f ∙ ap content g)) in
          elim none_left [ ])
    | inr (b, g) ↦
        same_content b d (w q b z g) (some-inj (sym (ap content g) ∙ (sym f ∙ ap content e)))
  ]
]
  where
    same_content :
        (b d : Buffer) → IsWell b → record b { refs = 0 } ≡ record d { refs = 0 } → IsWell d
    same_content b d (v, a) e =
        let (w, c) = subst IsWell e (record { used_in = v.used_in; small = v.small }, a) in
        (record { used_in = w.used_in; small = w.small }, c)

outcome : {A : Type 0} → Outcome A → Run (Outcome A) → Outcome A
outcome o fault = o
outcome o (done a) = a

-- A change of one array, and where it leads.
module _ (s : Store) (xs : List ℕ) (p : ℕ) (ys : List ℕ) (sound : IsSound s (xs ++ p ∷ ys)) where
  abbrev pub Sound : {A : Type 0} → Outcome A → Type 0
  Sound o = IsSound o.store (xs ++ o.array ∷ ys)

  Changes-IsSound :
      (b : Buffer) (m : Memory) (Holds : Buffer → Type 0) (place : ℕ) (r : Run (Outcome (Option ℕ)))
      → (¬ (p ≡ 0) → IsHeld s p b)
      → Changes s p b m Holds place r
      → (o : Outcome (Option ℕ)) → r ≡ done o
      → Sound o
  unfolding outcome
  Changes-IsSound b m Holds place r held (unchanged f e) o is =
      let same = ap (outcome o) (sym e ∙ is) in subst Sound same sound
  Changes-IsSound b m Holds place r held (changed t p' c e owned h) o is =
      let same = ap (outcome o) (sym e ∙ is) in
      subst Sound same (record {
        counted = Moves-IsCounted s t xs ys p p' sound.counted owned.moves;
        well = IsWell-kept s p b t p' c owned held sound.well;
      })

  clone-IsSound :
      (source : Option ℕ) (r : Run (Outcome (Result ℕ)))
      → Clones s xs p ys source r
      → (o : Outcome (Result ℕ)) → r ≡ done o
      → Sound o
  unfolding outcome
  clone-IsSound source r (clone_refused b c f g h e) o is =
      let same = ap (outcome o) (sym e ∙ is) in subst Sound same sound
  clone-IsSound source r (cloned t n e counted keeps) o is =
      let same = ap (outcome o) (sym e ∙ is) in
      subst Sound same (record {
        counted = counted;
        well = λ q d z f. content-IsWell s t keeps sound.well q d z f;
      })

  now-IsHeld : (b : Buffer) → ¬ (p ≡ 0) → s p ≡ some b → IsHeld s p b
  now-IsHeld b n is =
      let (c, at_p, h) = array_held s xs p ys sound.counted n in
      let (v, w) = sound.well p b n is in
      record {
        not_null = n;
        is = is;
        valid = v;
        counted = omega (arith, ap count (sym at_p ∙ is));
        whole = w;
      }

  call-Called : (c : Call) (m : Memory) → IsFree s m → Given s p c m → Called s p m (call c s p m)
  call-Called c m free (given_none e a) =
      subst (λ k. Called s k m (call c s k m)) (sym e) (Called-new s c m free a)
  call-Called c m free (given_some b n is a) = Called-old s p b c m (now-IsHeld b n is) free a

  -- A call leaves the arrays and buffers sound,
  pub call-IsSound :
      (c : Call) (m : Memory)
      → IsFree s m
      → Given s p c m
      → (o : Outcome (Option ℕ)) → call c s p m ≡ done o
      → Sound o
  call-IsSound c m free given o is = elim (call-Called c m free given) [
    | called b Holds place held change ↦ Changes-IsSound b m Holds place _ held change o is
  ]

  -- and it does not end with a fault.
  pub call_runs :
      (c : Call) (m : Memory)
      → IsFree s m
      → Given s p c m
      → (o : Outcome (Option ℕ)) × (call c s p m ≡ done o)
  call_runs c m free given = elim (call-Called c m free given) [
    | called b Holds place held (unchanged f e) ↦ (_, e)
    | called b Holds place held (changed t p' d e owned h) ↦ (_, e)
  ]

  -- What a clone wants of its source: a buffer of one of the arrays, with a count below the limit.
  pub clone-Sound :
      (source : Option ℕ)
      → ((from : ℕ)
          → source ≡ some from
          → ¬ (from ≡ 0) × (0 < refs s from) × (refs s from < 2 ^ 64 - 1))
      → (o : Outcome (Result ℕ)) → array_clone s p source ≡ done o
      → Sound o
  clone-Sound source h o is =
      clone-IsSound source _ (array_clone-Clones s xs p ys sound.counted source h) o is
