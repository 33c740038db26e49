-- ===== src/Types/Chunks.antt =====
-- mptcore/types/type_traits.c: the chunks of entries as one growing sequence.
use mathlib.Core.List.{append-nil}
use mpt_base.Prelude.{
  ℕ, zero, suc, ◌+◌, ◌-◌, ◌^◌, ◌<◌, ◌≤◌, ◌≡◌, refl, sym, ap, ◌∙◌, false, ◌==◌, ltb, none, some,
  List, [], ◌∷◌, ◌++◌, length, get_elem?, length-append, ltb-false, arith, Bool-cases, inl, inr,
}
use mpt_base.Prelude.Mem.{sub_size}
use mpt_base.Types.{Chunks, find_entry}

-- The entries of all chunks.
abbrev pub entries : {A : Type 0} → Chunks A → List A
entries [] = []
entries (c ∷ cs) = c ++ entries cs

-- All chunks but the last one are full.
abbrev pub IsFilled : {A : Type 0} → Chunks A → Type 0
IsFilled [] = 0 ≤ 30
IsFilled (c ∷ cs) = (length c ≤ 30) × (0 < length (entries cs) → length c ≡ 30) × IsFilled cs

module _ {A : Type 0} where
  pub get-front : (xs ys : List A) (i : ℕ) → i < length xs → get_elem? (xs ++ ys) i ≡ get_elem? xs i
  get-front [] ys i h = elim no_less [ ]
    where
      no_less : ⊥
      no_less = omega arith
  get-front (x ∷ xs) ys zero h = refl
  get-front (x ∷ xs) ys (suc i) h = get-front xs ys i (omega arith)

  pub get-behind :
      (xs ys : List A) (i : ℕ)
      → length xs ≤ i
      → get_elem? (xs ++ ys) i ≡ get_elem? ys (i - length xs)
  get-behind [] ys i h = ap (get_elem? ys) (omega arith)
  get-behind (x ∷ xs) ys zero h = elim no_less [ ]
    where
      no_less : ⊥
      no_less = omega arith
  get-behind (x ∷ xs) ys (suc i) h =
      get-behind xs ys i (omega arith) ∙ ap (get_elem? ys) (omega arith)

  get-none : (xs : List A) (i : ℕ) → length xs ≤ i → get_elem? xs i ≡ none
  get-none [] i h = refl
  get-none (x ∷ xs) zero h = elim no_less [ ]
    where
      no_less : ⊥
      no_less = omega arith
  get-none (x ∷ xs) (suc i) h = get-none xs i (omega arith)

pub length-split :
    {A : Type 0} (c : List A) (cs : Chunks A)
    → length (entries (c ∷ cs)) ≡ length c + length (entries cs)
length-split c cs = length-append c (entries cs)

find_entry-none :
    {A : Type 0} (cs : Chunks A) (i : ℕ) → length (entries cs) ≡ 0 → find_entry cs i ≡ none
unfolding find_entry
find_entry-none [] i h = refl
find_entry-none (c ∷ cs) i h =
    let sum = length-split c cs in
    let behind : ltb i (length c) ≡ false = ltb-false i (length c) (omega arith) in
    rw (behind) (find_entry-none cs (sub_size i 30) (omega arith))

-- The entry with a number is that of the sequence.
pub find_entry-entries :
    {A : Type 0} (cs : Chunks A) (i : ℕ)
    → IsFilled cs
    → i < 2 ^ 63
    → find_entry cs i ≡ get_elem? (entries cs) i
unfolding find_entry
find_entry-entries [] i f h = refl
find_entry-entries (c ∷ cs) i (l, full, f) h =
    let rest = find_entry-entries cs (i - 30) f (omega arith) in
    elim (Bool-cases (ltb i (length c))) [
      | inl e ↦ rw (e) (sym (get-front c (entries cs) i (ground arith)))
      | inr e ↦ rw (e) (elim (Bool-cases (0 == length (entries cs))) [
        | inl z ↦
            (let sum = length-split c cs in
              find_entry-none cs (sub_size i 30) (ground arith)
              ∙ sym (get-none (c ++ entries cs) i (ground arith)))
        | inr z ↦
            (let whole : length c ≡ 30 = full (ground arith) in
              let less : sub_size i 30 ≡ i - length c = ground arith in
              let same : i - 30 ≡ i - length c = ground arith in
              rw (less) (ap (find_entry cs) (sym same) ∙ (rest ∙ ap (get_elem? (entries cs)) same))
              ∙ sym (get-behind c (entries cs) i (ground arith)))
      ])
    ]

pub last-IsFilled :
    {A : Type 0} (c : List A) (t : A) (cs : Chunks A)
    → length (entries cs) ≡ 0
    → length c < 30
    → IsFilled cs
    → IsFilled ((c ++ t ∷ []) ∷ cs)
last-IsFilled c t cs z l f = (omega (arith, length-append c (t ∷ [])), (λ h. omega arith), f)

pub front-IsFilled :
    {A : Type 0} (c : List A) (cs : Chunks A) → length c ≡ 30 → IsFilled cs → IsFilled (c ∷ cs)
front-IsFilled c cs l f = (omega arith, (λ h. l), f)

pub entries-last :
    {A : Type 0} (c xs : List A) (t : A) → length xs ≡ 0 → (c ++ t ∷ []) ++ xs ≡ (c ++ xs) ++ t ∷ []
entries-last c [] t z = append-nil (c ++ t ∷ []) ∙ ap (λ k. k ++ t ∷ []) (sym (append-nil c))
entries-last c (x ∷ xs) t z = elim no_less [ ]
  where
    no_less : ⊥
    no_less = omega arith

pub get-last :
    {A : Type 0} (xs : List A) (t : A) (i : ℕ) → i ≡ length xs → get_elem? (xs ++ t ∷ []) i ≡ some t
get-last xs t i e =
    let none_left : i - length xs ≡ 0 = omega arith in
    get-behind xs (t ∷ []) i (omega arith) ∙ ap (get_elem? (t ∷ [])) none_left
