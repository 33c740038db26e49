-- ===== src/Types/Add.antt =====
-- mptcore/types/type_traits.c: generic types added to the chunks.
use mathlib.Core.List.{append_assoc}
use mpt_base.Prelude.{
  ℕ, ◌+◌, ◌-◌, ◌^◌, ◌<◌, ◌≤◌, ◌≡◌, refl, sym, ap, ◌∙◌, Bool, false, ◌==◌, ltb, if◌then◌else◌, some,
  List, [], ◌∷◌, ◌++◌, length, get_elem?, Error, Result, ok, err, bad_operation, bad_type, arith,
  Bool-cases, ◌⊎◌, inl, inr,
}
use mpt_base.Prelude.Mem.{sub_size}
use mpt_base.Array.{Traits}
use mpt_base.Types.{Chunks, add_entry, type_add, generic_traits}
use mpt_base.Types.Chunks.{
  entries, IsFilled, get-front, length-split, find_entry-entries, last-IsFilled, front-IsFilled,
  entries-last, get-last,
}

-- What an addition ends with, where `pos` is the number of the first entry.
pub data Adds (cs : Chunks Traits) (pos : ℕ) (t : Traits) (room : Bool)
    (r : Chunks Traits × Result ℕ) : Type 0 where
  not_added :
      (e : Error)
      → (room ≡ false) ⊎ (0xfff < pos + length (entries cs))
      → r ≡ (cs, err e)
      → Adds cs pos t room r
  added :
      (cs' : Chunks Traits)
      → r ≡ (cs', ok (pos + length (entries cs)))
      → entries cs' ≡ entries cs ++ t ∷ []
      → IsFilled cs'
      → pos + length (entries cs) ≤ 0xfff
      → Adds cs pos t room r

-- The addition behind a full chunk.
Adds-front :
    (c : List Traits) (cs : Chunks Traits) (pos : ℕ) (t : Traits) (room : Bool)
    (r : Chunks Traits × Result ℕ)
    → length c ≡ 30
    → Adds cs (pos + 30) t room r
    → Adds (c ∷ cs) pos t room (c ∷ r.0, r.1)
Adds-front c cs pos t room r l (not_added e w q) = not_added e reason (ap (λ k. (c ∷ k.0, k.1)) q)
  where
    reason : (room ≡ false) ⊎ (0xfff < pos + length (c ++ entries cs))
    reason = elim w [ inl z ↦ inl z | inr z ↦ inr (omega (arith, length-split c cs)) ]
Adds-front c cs pos t room r l (added cs' q same f b) =
    let number : pos + 30 + length (entries cs) ≡ pos + length (c ++ entries cs) =
      omega (arith, length-split c cs) in
    added (c ∷ cs') (ap (λ k. (c ∷ k.0, k.1)) q ∙ ap (λ k. (c ∷ cs', ok k)) number)
      (ap (λ k. c ++ k) same ∙ sym (append_assoc c (entries cs) (t ∷ [])))
      (front-IsFilled c cs' l f) (omega (arith, number))

-- The addition to the last chunk.
Adds-here :
    (c : List Traits) (cs : Chunks Traits) (pos : ℕ) (t : Traits) (room : Bool)
    → length (entries cs) ≡ 0
    → length c < 30
    → IsFilled cs
    → Adds (c ∷ cs) pos t room (
        if ltb 0xfff (pos + length c)
        then (c ∷ cs, err bad_type)
        else ((c ++ t ∷ []) ∷ cs, ok (pos + length c)))
Adds-here c cs pos t room z l f =
    let number : pos + length c ≡ pos + length (c ++ entries cs) =
      omega (arith, length-split c cs) in
    elim (Bool-cases (ltb 0xfff (pos + length c))) [
      | inl e ↦ not_added bad_type (inr (ground (arith, number))) (rw (e) refl)
      | inr e ↦
          added ((c ++ t ∷ []) ∷ cs) (rw (e) (ap (λ k. ((c ++ t ∷ []) ∷ cs, ok k)) number))
            (entries-last c (entries cs) t z) (last-IsFilled c t cs z l f) (ground (arith, number))
    ]

-- An addition appends to the sequence of all entries, with the next number, or changes nothing: this
-- only without memory or behind the last number.
pub add_entry-Adds :
    (cs : Chunks Traits) (pos : ℕ) (t : Traits) (room : Bool)
    → IsFilled cs
    → Adds cs pos t room (add_entry cs pos t room)
unfolding add_entry
add_entry-Adds [] pos t room f = elim (Bool-cases (ltb 0xfff pos)) [
  | inl e ↦ not_added bad_type (inr (ground arith)) (rw (e) refl)
  | inr e ↦ elim (Bool-cases room) [
    | inl g ↦
        added ((t ∷ []) ∷ []) (rw (e, g) (ap (λ k. ((t ∷ []) ∷ [], ok k)) (plus_zero pos))) refl
          (omega arith, (λ h. elim h [ ]), omega arith) (ground arith)
    | inr g ↦ not_added bad_operation (inl g) (rw (e, g) refl)
  ]
]
  where
    plus_zero : (n : ℕ) → n ≡ n + 0
    plus_zero n = omega arith
add_entry-Adds (c ∷ cs) pos t room (l, full, f) =
    let rest = add_entry-Adds cs (pos + 30) t room f in
    elim (Bool-cases (length c == 30)) [
      | inl e ↦
          rw (e) (Adds-front c cs pos t room (add_entry cs (pos + 30) t room) (ground arith) rest)
      | inr e ↦ rw (e) (Adds-here c cs pos t room (none_behind e) (ground arith) f)
    ]
  where
    none_behind : (length c == 30) ≡ false → length (entries cs) ≡ 0
    none_behind e = elim (Bool-cases (length (entries cs) == 0)) [
      | inl z ↦ ground arith
      | inr z ↦ (let whole : length c ≡ 30 = full (ground arith) in ground arith)
    ]

generic_traits-entries :
    (cs : Chunks Traits) (type : ℕ)
    → IsFilled cs
    → 0x900 ≤ type
    → type < 2 ^ 62
    → generic_traits cs type ≡ get_elem? (entries cs) (type - 0x900)
unfolding generic_traits
generic_traits-entries cs type f h k =
    let less : sub_size type 0x900 ≡ type - 0x900 = omega arith in
    rw (less) (find_entry-entries cs (type - 0x900) f (omega arith))

-- Where all chunks but the last one are full, a type with a size that is added gets the next number, by which it is found from then on, and all
-- types before keep theirs; the number is no larger than the last one for such types. Otherwise
-- nothing changes, only without memory or behind the last number.
pub type_add_lem :
    (cs : Chunks Traits) (t : Traits) (room : Bool)
    → IsFilled cs
    → ¬ (t.size ≡ 0)
    → (((room ≡ false) ⊎ (0xfff < 0x900 + length (entries cs)))
        × ((type_add cs (some t) room).0 ≡ cs))
      ⊎ ((cs' : Chunks Traits) × (type_add cs (some t) room
            ≡ (cs', ok (0x900 + length (entries cs))))
          × (0x900 + length (entries cs) ≤ 0xfff)
          × IsFilled cs'
          × (generic_traits cs' (0x900 + length (entries cs)) ≡ some t)
          × ((type : ℕ)
              → 0x900 ≤ type
              → type < 0x900 + length (entries cs)
              → generic_traits cs' type ≡ generic_traits cs type))
unfolding type_add generic_traits
type_add_lem cs t room f z =
    let sized : (t.size == 0) ≡ false = ground arith in
    rw (sized) (elim (add_entry-Adds cs 0x900 t room f) [
      | not_added e w q ↦ inl (w, ap (λ k. k.0) q)
      | added cs' q same f' b ↦ inr (cs', q, b, f', found cs' same f' b, kept cs' same f' b)
    ])
  where
    found :
        (cs' : Chunks Traits)
        → entries cs' ≡ entries cs ++ t ∷ []
        → IsFilled cs'
        → 0x900 + length (entries cs) ≤ 0xfff
        → generic_traits cs' (0x900 + length (entries cs)) ≡ some t
    found cs' same f' b =
        generic_traits-entries cs' (0x900 + length (entries cs)) f' (omega arith) (omega arith)
        ∙ (ap (λ k. get_elem? k (0x900 + length (entries cs) - 0x900)) same
            ∙ get-last (entries cs) t (0x900 + length (entries cs) - 0x900) (omega arith))

    kept :
        (cs' : Chunks Traits)
        → entries cs' ≡ entries cs ++ t ∷ []
        → IsFilled cs'
        → 0x900 + length (entries cs) ≤ 0xfff
        → (type : ℕ) → 0x900 ≤ type
        → type < 0x900 + length (entries cs)
        → generic_traits cs' type ≡ generic_traits cs type
    kept cs' same f' b type h k =
        generic_traits-entries cs' type f' h (omega arith)
        ∙ (ap (λ l. get_elem? l (type - 0x900)) same
            ∙ (get-front (entries cs) (t ∷ []) (type - 0x900) (omega arith)
                ∙ sym (generic_traits-entries cs type f h (omega arith))))
