-- ===== src/Node/Order.antt =====
-- mptcore/node: a list of nodes as the sequence of its members.
pub mod Steps
pub mod Place
pub mod Insert
pub mod Add
pub mod Children
use mpt_base.Prelude.{
  ℕ, zero, suc, ◌+◌, ◌-◌, ◌<◌, ◌≡◌, refl, sym, ap, ◌∙◌, List, [], ◌∷◌, length, arith, ltb, ◌==◌,
  if◌then◌else◌, ◌≢◌,
}
use mpt_base.Node.{Store}

-- The nodes from `p` on are `xs`.
abbrev pub Chain : Store → (p : ℕ) → List ℕ → Type 0
Chain s p [] = p ≡ 0
Chain s p (x ∷ xs) = (p ≡ x) × (¬ (p ≡ 0)) × Chain s (s p).next xs

-- The member at an index, null behind the last.
abbrev pub nth : List ℕ → ℕ → ℕ
nth [] i = 0
nth (x ∷ xs) zero = x
nth (x ∷ xs) (suc i) = nth xs i

abbrev pub insert_at : ℕ → (v : ℕ) → List ℕ → List ℕ
insert_at zero v xs = v ∷ xs
insert_at (suc k) v [] = v ∷ []
insert_at (suc k) v (x ∷ xs) = x ∷ insert_at k v xs

-- The members of the longer list: those in front, the new one, and the others one place on.
pub insert_at_front :
    (xs : List ℕ) (k v j : ℕ) → k < length xs + 1 → j < k → nth (insert_at k v xs) j ≡ nth xs j
insert_at_front xs zero v j h g = let none_left : ⊥ = omega arith in elim none_left [ ]
insert_at_front [] (suc k) v j h g = let none_left : ⊥ = omega arith in elim none_left [ ]
insert_at_front (x ∷ xs) (suc k) v zero h g = refl
insert_at_front (x ∷ xs) (suc k) v (suc j) h g =
    insert_at_front xs k v j (omega arith) (omega arith)

pub insert_at_place : (xs : List ℕ) (k v : ℕ) → k < length xs + 1 → nth (insert_at k v xs) k ≡ v
insert_at_place xs zero v h = refl
insert_at_place [] (suc k) v h = let none_left : ⊥ = omega arith in elim none_left [ ]
insert_at_place (x ∷ xs) (suc k) v h = insert_at_place xs k v (omega arith)

pub insert_at_behind :
    (xs : List ℕ) (k v j : ℕ)
    → k < length xs + 1
    → k < j + 1
    → nth (insert_at k v xs) (suc j) ≡ nth xs j
insert_at_behind xs zero v j h g = refl
insert_at_behind [] (suc k) v j h g = let none_left : ⊥ = omega arith in elim none_left [ ]
insert_at_behind (x ∷ xs) (suc k) v zero h g = let none_left : ⊥ = omega arith in elim none_left [ ]
insert_at_behind (x ∷ xs) (suc k) v (suc j) h g =
    insert_at_behind xs k v j (omega arith) (omega arith)

pub length-insert_at : (xs : List ℕ) (k v : ℕ) → length (insert_at k v xs) ≡ length xs + 1
length-insert_at xs zero v = omega arith
length-insert_at [] (suc k) v = refl
length-insert_at (x ∷ xs) (suc k) v = omega (arith, length-insert_at xs k v)

pub Chain-first : (s : Store) (xs : List ℕ) (p : ℕ) → Chain s p xs → nth xs 0 ≡ p
Chain-first s [] p c = sym c
Chain-first s (x ∷ xs) p c = sym c.0

pub Chain-null :
    (s : Store) (xs : List ℕ) (p i : ℕ) → Chain s p xs → length xs < i + 1 → nth xs i ≡ 0
Chain-null s [] p i c h = refl
Chain-null s (x ∷ xs) p zero c h = omega arith
Chain-null s (x ∷ xs) p (suc i) c h = Chain-null s xs (s p).next i c.2 (omega arith)

pub Chain-member :
    (s : Store) (xs : List ℕ) (p i : ℕ)
    → Chain s p xs
    → i < length xs
    → ¬ (nth xs i ≡ 0) × ((s (nth xs i)).next ≡ nth xs (suc i))
Chain-member s [] p i c h = omega arith
Chain-member s (x ∷ xs) p zero c h = rw (sym c.0) (c.1, sym (Chain-first s xs (s p).next c.2))
Chain-member s (x ∷ xs) p (suc i) c h = Chain-member s xs (s p).next i c.2 (omega arith)

-- A list whose members follow each other in the store is a chain of it.
pub Chain-build :
    (s : Store) (xs : List ℕ)
    → ((i : ℕ) → i < length xs → ¬ (nth xs i ≡ 0) × ((s (nth xs i)).next ≡ nth xs (suc i)))
    → Chain s (nth xs 0) xs
Chain-build s [] f = refl
Chain-build s (x ∷ xs) f = (
  refl,
  (f 0 (omega arith)).0,
  rw (f 0 (omega arith)).1 (Chain-build s xs (λ i h. f (suc i) (omega arith))),
)

-- The rest of a chain is as long as the way to its end, so no node stands in it twice.
unique_length :
    (s : Store) (xs ys : List ℕ) (p : ℕ) → Chain s p xs → Chain s p ys → length xs ≡ length ys
unique_length s [] [] p c d = refl
unique_length s [] (y ∷ ys) p c d = elim (d.1 c) [ ]
unique_length s (x ∷ xs) [] p c d = elim (c.1 d) [ ]
unique_length s (x ∷ xs) (y ∷ ys) p c d = ap suc (unique_length s xs ys (s p).next c.2 d.2)

abbrev pub rest_at : ℕ → List ℕ → List ℕ
rest_at zero xs = xs
rest_at (suc i) [] = []
rest_at (suc i) (x ∷ xs) = rest_at i xs

length-rest_at : (i : ℕ) (xs : List ℕ) → length (rest_at i xs) ≡ length xs - i
length-rest_at zero xs = omega arith
length-rest_at (suc i) [] = omega arith
length-rest_at (suc i) (x ∷ xs) = omega (arith, length-rest_at i xs)

Chain-rest_at :
    (s : Store) (xs : List ℕ) (p i : ℕ)
    → Chain s p xs
    → i < length xs
    → Chain s (nth xs i) (rest_at i xs)
Chain-rest_at s [] p i c h = let none_left : ⊥ = omega arith in elim none_left [ ]
Chain-rest_at s (x ∷ xs) p zero c h = rw (sym c.0) (refl, c.1, c.2)
Chain-rest_at s (x ∷ xs) p (suc i) c h = Chain-rest_at s xs (s p).next i c.2 (omega arith)

pub nth_injective :
    (s : Store) (xs : List ℕ) (p i j : ℕ)
    → Chain s p xs
    → i < length xs
    → j < length xs
    → nth xs i ≡ nth xs j
    → i ≡ j
nth_injective s xs p i j c h k e = omega (
  arith,
  length-rest_at i xs,
  length-rest_at j xs,
  unique_length s (rest_at i xs) (rest_at j xs) (nth xs i) (Chain-rest_at s xs p i c h)
      (rw e (Chain-rest_at s xs p j c k)),
)
