-- ===== src/Array/Reach.antt =====
-- mptcore/array: what holds after any calls for the arrays of a program.
use mpt_base.Prelude.{
  ℕ, ◌-◌, ◌^◌, ◌<◌, ◌≡◌, Result, Option, none, some, done, arith, List, ◌∷◌, ◌++◌,
}
use mpt_base.Array.{Buffer, Memory}
use mpt_base.Array.Shared.{Store, Outcome, array_clone}
use mpt_base.Array.Held.{IsFree, refs}
use mpt_base.Array.Counts.{holders}
use mpt_base.Array.Clone.{array_held}
use mpt_base.Array.Calls.{Call, call, Given}
use mpt_base.Array.Machine.{IsSound, call-IsSound, call_runs, clone-Sound}

-- A call for one array of a list, and a clone of an array's buffer or of none in another array.
pub data Step : Store → List ℕ → Store → List ℕ → Type 0 where
  calls :
      (s : Store) (xs : List ℕ) (p : ℕ) (ys : List ℕ) (c : Call) (m : Memory)
      (o : Outcome (Option ℕ))
      → IsFree s m
      → Given s p c m
      → call c s p m ≡ done o
      → Step s (xs ++ p ∷ ys) o.store (xs ++ o.array ∷ ys)
  clones :
      (s : Store) (xs : List ℕ) (p : ℕ) (ys : List ℕ) (source : Option ℕ) (o : Outcome (Result ℕ))
      → ((from : ℕ)
          → source ≡ some from
          → ¬ (from ≡ 0) × (0 < refs s from) × (refs s from < 2 ^ 64 - 1))
      → array_clone s p source ≡ done o
      → Step s (xs ++ p ∷ ys) o.store (xs ++ o.array ∷ ys)

-- Arrays with no buffers at first, and any steps.
pub data Reaches : Store → List ℕ → Type 0 where
  at_start :
      (arrays : List ℕ) → ((q : ℕ) → ¬ (q ≡ 0) → holders arrays q ≡ 0) → Reaches (λ q. none) arrays
  after_step :
      {s t : Store} {arrays arrays' : List ℕ}
      → Reaches s arrays
      → Step s arrays t arrays'
      → Reaches t arrays'

Step-IsSound :
    {s t : Store} {arrays arrays' : List ℕ}
    → Step s arrays t arrays'
    → IsSound s arrays
    → IsSound t arrays'
Step-IsSound (calls s xs p ys c m o free given is) sound =
    call-IsSound s xs p ys sound c m free given o is
Step-IsSound (clones s xs p ys source o h is) sound = clone-Sound s xs p ys sound source h o is

none-IsSound :
    (arrays : List ℕ) → ((q : ℕ) → ¬ (q ≡ 0) → holders arrays q ≡ 0) → IsSound (λ q. none) arrays
none-IsSound arrays h = record {
  counted = λ q n. ground (arith, h q n);
  well = λ q b n e. (let none_left : ⊥ = ground (arith, e) in elim none_left [ ]);
}

-- After any allowed calls and clones for a list of arrays with no buffers, the count of each buffer
-- is the number of arrays that have it, and all buffers have their content inside, in whole elements.
pub Reaches-IsSound : {s : Store} {arrays : List ℕ} → Reaches s arrays → IsSound s arrays
Reaches-IsSound (at_start arrays h) = none-IsSound arrays h
Reaches-IsSound (after_step reached step) = Step-IsSound step (Reaches-IsSound reached)

-- After any allowed calls and clones for a list of arrays with no buffers, each array that has a
-- buffer finds it there, not freed, and the next allowed call for it runs to its end, without a
-- fault, and to arrays that are reached in this way again.
pub Reaches-call :
    {s : Store} (xs : List ℕ) (p : ℕ) (ys : List ℕ)
    → Reaches s (xs ++ p ∷ ys)
    → (c : Call) (m : Memory) → IsFree s m
    → Given s p c m
    → (¬ (p ≡ 0) → (b : Buffer) × (s p ≡ some b) × (0 < b.refs))
      × ((o : Outcome (Option ℕ)) × (call c s p m ≡ done o) × Reaches o.store (xs ++ o.array ∷ ys))
Reaches-call {s} xs p ys reached c m free given =
    let sound = Reaches-IsSound reached in
    let (o, is) = call_runs s xs p ys sound c m free given in
    (
      array_held s xs p ys sound.counted,
      (o, is, after_step reached (calls s xs p ys c m o free given is)),
    )
