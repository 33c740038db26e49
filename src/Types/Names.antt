-- ===== src/Types/Names.antt =====
-- mptcore/types/type_traits.c: metatypes with their names, in chunks.
use mathlib.Core.List.{append_assoc}
use mpt_base.Prelude.{
  ℕ, ◌+◌, ◌<◌, ◌≤◌, ◌≡◌, refl, sym, ap, ◌∙◌, Bool, true, false, not, ◌&&◌, ◌||◌, ◌==◌, ltb, Option,
  none, some, List, [], ◌∷◌, ◌++◌, length, arith, Bool-cases, Option-cases, ◌⊎◌, inl, inr,
}
use mpt_base.Types.{
  Chunks, Named, add_meta, store_meta, same_name, has_name, find_name, named_entry,
}
use mpt_base.Types.Chunks.{
  entries, IsFilled, last-IsFilled, front-IsFilled, entries-last, length-split,
}

-- What an addition ends with, where `pos` is the number of the first entry.
pub data Names (cs : Chunks Named) (pos : ℕ) (name : Option (List ℕ)) (chunk_room room : Bool)
    (r : Chunks Named × Option Named) : Type 0 where
  no_meta :
      (cs' : Chunks Named)
      → r ≡ (cs', none)
      → entries cs' ≡ entries cs
      → IsFilled cs'
      → (chunk_room && room ≡ false) ⊎ (0x7ff < pos + length (entries cs))
      → Names cs pos name chunk_room room r
  new_meta :
      (cs' : Chunks Named) (e : Named)
      → r ≡ (cs', some e)
      → e.name ≡ name
      → e.type ≡ pos + length (entries cs)
      → e.type ≤ 0x7ff
      → entries cs' ≡ entries cs ++ e ∷ []
      → IsFilled cs'
      → Names cs pos name chunk_room room r

-- The addition behind a full chunk.
Names-front :
    (c : List Named) (cs : Chunks Named) (pos : ℕ) (name : Option (List ℕ)) (chunk_room room : Bool)
    (r : Chunks Named × Option Named)
    → length c ≡ 30
    → Names cs (pos + 30) name chunk_room room r
    → Names (c ∷ cs) pos name chunk_room room (c ∷ r.0, r.1)
Names-front c cs pos name chunk_room room r l (no_meta cs' q same f w) =
    no_meta (c ∷ cs') (ap (λ k. (c ∷ k.0, k.1)) q) (ap (λ k. c ++ k) same)
      (front-IsFilled c cs' l f) reason
  where
    reason : (chunk_room && room ≡ false) ⊎ (0x7ff < pos + length (c ++ entries cs))
    reason = elim w [ inl z ↦ inl z | inr z ↦ inr (omega (arith, length-split c cs)) ]
Names-front c cs pos name chunk_room room r l (new_meta cs' e q named number b same f) =
    new_meta (c ∷ cs') e (ap (λ k. (c ∷ k.0, k.1)) q) named
      (omega (arith, number, length-split c cs)) b
      (ap (λ k. c ++ k) same ∙ sym (append_assoc c (entries cs) (e ∷ [])))
      (front-IsFilled c cs' l f)

-- The addition to the last chunk.
Names-here :
    (c : List Named) (cs : Chunks Named) (pos : ℕ) (name : Option (List ℕ)) (chunk_room room : Bool)
    → length (entries cs) ≡ 0
    → length c < 30
    → IsFilled cs
    → IsFilled (c ∷ cs)
    → Names
        (c ∷ cs)
        pos
        name
        chunk_room
        room
        ((store_meta c pos name room).0 ∷ cs, (store_meta c pos name room).1)
Names-here c cs pos name chunk_room room z l f g =
    let number : pos + length c ≡ pos + length (c ++ entries cs) =
      omega (arith, length-split c cs) in
    elim (Bool-cases (ltb 0x7ff (pos + length c) || not room)) [
      | inl e ↦ no_meta (c ∷ cs) (rw (e) refl) refl g (ground (arith, number))
      | inr e ↦
          new_meta ((c ++ record { name = name; type = pos + length c } ∷ []) ∷ cs)
            (record { name = name; type = pos + length c }) (rw (e) refl) refl number (ground arith)
            (entries-last c (entries cs) _ z) (last-IsFilled c _ cs z l f)
    ]

Names-first :
    {pos : ℕ} {name : Option (List ℕ)} {chunk_room room : Bool} {r : Chunks Named × Option Named}
    → Names ([] ∷ []) pos name chunk_room room r
    → Names [] pos name chunk_room room r
Names-first (no_meta cs' q same f w) = no_meta cs' q same f w
Names-first (new_meta cs' e q named number b same f) = new_meta cs' e q named number b same f

pub add_meta-Names :
    (cs : Chunks Named) (pos : ℕ) (name : Option (List ℕ)) (chunk_room room : Bool)
    → IsFilled cs
    → Names cs pos name chunk_room room (add_meta cs pos name chunk_room room)
unfolding add_meta
add_meta-Names [] pos name chunk_room room f = elim (Bool-cases chunk_room) [
  | inr e ↦ no_meta [] (rw (e) refl) refl f (inl (rw (e) refl))
  | inl e ↦ rw (e) (
      Names-first (
        Names-here [] [] pos name true room refl (omega arith) f
          (omega arith, (λ h. elim h [ ]), f)))
]
add_meta-Names (c ∷ cs) pos name chunk_room room (l, full, f) =
    let rest = add_meta-Names cs (pos + 30) name chunk_room room f in
    elim (Bool-cases (length c == 30)) [
      | inl e ↦ rw (e) (elim (Bool-cases (ltb 0x7ff (pos + 30))) [
        | inl g ↦
            rw (g)
              (no_meta (c ∷ cs) refl refl (l, full, f) (inr (ground (arith, length-split c cs))))
        | inr g ↦ rw (g) (Names-front c cs pos name chunk_room room _ (ground arith) rest)
      ])
      | inr e ↦
          rw (e)
            (Names-here c cs pos name chunk_room room (none_behind e) (ground arith) f (l, full, f))
    ]
  where
    none_behind : (length c == 30) ≡ false → length (entries cs) ≡ 0
    none_behind e = elim (Bool-cases (length (entries cs) == 0)) [
      | inl z ↦ ground arith
      | inr z ↦ (let whole : length c ≡ 30 = full (ground arith) in ground arith)
    ]

same_name_refl : (n : List ℕ) → same_name n n ≡ true
unfolding same_name
same_name_refl [] = refl
same_name_refl (c ∷ cs) = let rest = same_name_refl cs in ground (arith, rest)

find_name-append :
    (n : List ℕ) (xs ys : List Named)
    → find_name n (xs ++ ys) ≡ elim (find_name n xs) [ none ↦ find_name n ys | some e ↦ some e ]
unfolding find_name
find_name-append n [] ys = refl
find_name-append n (x ∷ xs) ys = elim (Bool-cases (has_name n x)) [
  | inl e ↦ rw (e) refl
  | inr e ↦ rw (e) (find_name-append n xs ys)
]

pub named_entry-entries :
    (n : List ℕ) (cs : Chunks Named) → named_entry n cs ≡ find_name n (entries cs)
unfolding named_entry find_name
named_entry-entries n [] = refl
named_entry-entries n (c ∷ cs) = elim (Option-cases (find_name n c)) [
  | inl e ↦ rw (find_name-append n c (entries cs), named_entry, e) (named_entry-entries n cs)
  | inr (d, e) ↦ rw (find_name-append n c (entries cs), named_entry, e) refl
]

pub find_name-last :
    (n : List ℕ) (xs : List Named) (e : Named)
    → find_name n xs ≡ none
    → e.name ≡ some n
    → find_name n (xs ++ e ∷ []) ≡ some e
unfolding find_name
find_name-last n xs e h k = find_name-append n xs (e ∷ []) ∙ rw (h, k, same_name_refl n) refl
