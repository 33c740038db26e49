-- ===== src/Hash/Laws.antt =====
-- Strings against counted data, and the functions that can be chosen.
use mpt_base.Prelude.{
  ℕ, zero, suc, ◌+◌, ◌<◌, ◌≡◌, ◌≢◌, refl, ap, ◌∙◌, Bool, ◌&&◌, true, false, Option, none, some,
  List, [], ◌∷◌, ◌==◌, ==-false, arith, ok, err, bad_argument, Bool-cases, inl, inr,
}
use mpt_base.Prelude.Mem.{Bytes}
use mpt_base.Hash.{
  lower, HashFunction, djb2, smdb, hash_counted, hash_string, hash_djb2, hash_smdb, hash_set, hash,
  same_text, djb2_name, smdb_name, djb2_step, smdb_step,
}

-- A string of `n` characters at the address `a`.
pub record IsString (m : Bytes) (a n : ℕ) : Type 0 where
  pub ends : m (a + n) ≡ 0
  pub inner : (i : ℕ) → i < n → m (a + i) ≢ 0

hash_string-counted :
    (step : ℕ → ℕ → ℕ) (m : Bytes) (fuel a h n : ℕ)
    → IsString m a n
    → n < fuel
    → hash_string step m fuel a h ≡ some (hash_counted step m a h n)
unfolding hash_string hash_counted
hash_string-counted step m zero a h n s l = absurd (omega arith)
hash_string-counted step m (suc fuel) a h zero s l =
    let e : a + 0 ≡ a = omega arith in let z : m a ≡ 0 = rw e at s.ends in ground arith
hash_string-counted step m (suc fuel) a h (suc n) s l =
    let e : a + 0 ≡ a = omega arith in
    let ne : m a ≢ 0 = rw e at (s.inner 0 (omega arith)) in
    let ends : m (a + 1 + n) ≡ 0 = ap m (omega arith) ∙ s.ends in
    let inner : (i : ℕ) → i < n → m (a + 1 + i) ≢ 0 =
      λ i h z. s.inner (suc i) (omega arith) (ap m (omega arith) ∙ z) in
    rw (==-false (m a) 0 ne) (
      hash_string-counted step m fuel (a + 1) (step h (m a)) n
        (record { ends = ends; inner = inner }) (omega arith))

-- The hash of a string, asked for by a negative length, is the hash of its characters when they
-- are counted, for the default function whichever it is; more fuel than characters is enough.
pub hash_string_lem :
    (f : Option HashFunction) (m : Bytes) (fuel a n : ℕ)
    → IsString m a n
    → n < fuel
    → hash fuel f (some m) a none ≡ hash fuel f (some m) a (some n)
unfolding hash hash_djb2 hash_smdb
hash_string_lem none m fuel a n s l =
    ap (λ (r : Option ℕ). (djb2, r)) (hash_string-counted djb2_step m fuel a 5381 n s l)
hash_string_lem (some djb2) m fuel a n s l =
    ap (λ (r : Option ℕ). (djb2, r)) (hash_string-counted djb2_step m fuel a 5381 n s l)
hash_string_lem (some smdb) m fuel a n s l =
    ap (λ (r : Option ℕ). (smdb, r)) (hash_string-counted smdb_step m fuel a 0 n s l)

exclusive : (n : ℕ) (x y : Bool) → ((n == 100) && x) ≡ true → ((n == 115) && y) ≡ false
exclusive n x y e = ground arith

never : (name : Option (List ℕ)) → (hash_set none name).0 ≢ some smdb
unfolding hash_set same_text
never none e = cc
never (some []) e = cc
never (some (c ∷ s)) e = elim (Bool-cases (same_text (c ∷ s) djb2_name)) [
  | inl t ↦
      let other : same_text (c ∷ s) smdb_name ≡ false =
        exclusive (lower c) (same_text s (106 ∷ 98 ∷ 50 ∷ [])) (same_text s (109 ∷ 100 ∷ 98 ∷ []))
          t in
      ground arith
  | inr f ↦ ground arith
]

-- No name chooses the second hash function while none is chosen: its own name chooses the first,
-- and the name of the first is refused and chooses none.
pub hash_set_never :
    (name : Option (List ℕ))
    → ((hash_set none name).0 ≢ some smdb)
      × (hash_set none (some smdb_name) ≡ (some djb2, ok 0))
      × (hash_set none (some djb2_name) ≡ (none, err bad_argument))
unfolding hash_set same_text
hash_set_never name = (never name, refl, refl)
