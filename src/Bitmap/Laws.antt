-- ===== src/Bitmap/Laws.antt =====
-- What a change of one bit of a map does to every bit of it.
use mpt_base.Prelude.{
  ℕ, zero, suc, ◌/◌, ◌%◌, ◌<◌, ◌≡◌, ◌==◌, refl, Bool, true, false, not, ◌&&◌, if◌then◌else◌, ok,
  err, missing_buffer, arith, ◌≤◌,
}
use mpt_base.Prelude.Int.{ℤ, pos, negsuc}
use mpt_base.Prelude.Mem.{Bytes}
use mpt_base.Bitmap.{bit_of, with_bit, without_bit, bitmap_set, bitmap_unset, bitmap_get}

all_below : ℕ → (ℕ → Bool) → Bool
all_below zero p = true
all_below (suc n) p = p n && all_below n p

all_below-lt : (n : ℕ) (p : ℕ → Bool) (x : ℕ) → all_below n p ≡ true → x < n → p x ≡ true
unfolding all_below
all_below-lt zero p x h l = absurd (omega arith)
all_below-lt (suc n) p x h l = ground (arith, all_below-lt n p x)

-- Over a byte and two positions, every case is checked.
abbrev same : Bool → Bool → Bool
same true c = c
same false c = not c

abbrev pub clear : ℕ → ℕ → Bool
clear b p = bit_of b p == 0

set_case : ℕ → ℕ → ℕ → Bool
set_case b p r = same (clear (with_bit b p) r) (if p == r then false else clear b r)

unset_case : ℕ → ℕ → ℕ → Bool
unset_case b p r = same (clear (without_bit b p) r) (if p == r then true else clear b r)

check : (ℕ → ℕ → ℕ → Bool) → Bool
unfolding all_below
check f = all_below 256 (λ b. all_below 8 (λ p. all_below 8 (f b p)))

check-lt :
    (f : ℕ → ℕ → ℕ → Bool) (b p r : ℕ) → check f ≡ true → b < 256 → p < 8 → r < 8 → f b p r ≡ true
unfolding check
check-lt f b p r e hb hp hr =
    all_below-lt 8 (f b p) r
      (all_below-lt 8 (λ x. all_below 8 (f b x)) p
        (all_below-lt 256 (λ y. all_below 8 (λ x. all_below 8 (f y x))) b e hb) hp)
      hr

set_table : check set_case ≡ true
unfolding check set_case
set_table = refl

unset_table : check unset_case ≡ true
unfolding check unset_case
unset_table = refl

same_eq : (a b : Bool) → same a b ≡ true → a ≡ b
same_eq true true h = refl
same_eq true false h = cc
same_eq false true h = cc
same_eq false false h = refl

clear-with_bit :
    (b p r : ℕ)
    → b < 256
    → p < 8
    → r < 8
    → clear (with_bit b p) r ≡ (if p == r then false else clear b r)
unfolding set_case
clear-with_bit b p r hb hp hr = same_eq _ _ (check-lt set_case b p r set_table hb hp hr)

clear-without_bit :
    (b p r : ℕ)
    → b < 256
    → p < 8
    → r < 8
    → clear (without_bit b p) r ≡ (if p == r then true else clear b r)
unfolding unset_case
clear-without_bit b p r hb hp hr = same_eq _ _ (check-lt unset_case b p r unset_table hb hp hr)

-- For a map of bytes and two positions inside of it: after a set of bit `i`, bit `i` reads 1 and
-- every other bit as before; the result says whether the bit was clear.
pub bitmap_set-get :
    (m : Bytes) (len i j : ℕ)
    → ((a : ℕ) → m a < 256)
    → i / 8 < len
    → j / 8 < len
    → (bitmap_get (bitmap_set m len (pos i)).1 len (pos j)
        ≡ (if i == j then ok 1 else bitmap_get m len (pos j)))
      × ((bitmap_set m len (pos i)).0 ≡ (if clear (m (i / 8)) (i % 8) then ok 1 else ok 0))
unfolding bitmap_set bitmap_get
bitmap_set-get m len i j h li lj = (
  ground
      (arith, clear-with_bit (m (i / 8)) (i % 8) (j % 8) (h (i / 8)) (omega arith) (omega arith)),
  ground arith,
)

-- For a map of bytes and two positions inside of it: after bit `i` is unset, it reads 0 and every
-- other bit as before; the result says whether the bit was set.
pub bitmap_unset-get :
    (m : Bytes) (len i j : ℕ)
    → ((a : ℕ) → m a < 256)
    → i / 8 < len
    → j / 8 < len
    → (bitmap_get (bitmap_unset m len (pos i)).1 len (pos j)
        ≡ (if i == j then ok 0 else bitmap_get m len (pos j)))
      × ((bitmap_unset m len (pos i)).0 ≡ (if clear (m (i / 8)) (i % 8) then ok 0 else ok 1))
unfolding bitmap_unset bitmap_get
bitmap_unset-get m len i j h li lj = (
  ground (
    arith,
    clear-without_bit (m (i / 8)) (i % 8) (j % 8) (h (i / 8)) (omega arith) (omega arith),
  ),
  ground arith,
)

-- The position is negative, or its byte lies behind the map.
abbrev pub OutOfMap : ℕ → ℤ → Type 0
OutOfMap len (pos i) = len ≤ i / 8
OutOfMap len (negsuc i) = Unit {0}

-- A position that is negative, or whose byte lies behind the map, is refused with MissingBuffer by
-- all three operations, and none of them changes the map.
pub bitmap_refused :
    (m : Bytes) (len : ℕ) (p : ℤ)
    → OutOfMap len p
    → (bitmap_get m len p ≡ err missing_buffer)
      × (bitmap_set m len p ≡ (err missing_buffer, m))
      × (bitmap_unset m len p ≡ (err missing_buffer, m))
unfolding bitmap_set bitmap_unset bitmap_get
bitmap_refused m len (pos i) h = ground arith
bitmap_refused m len (negsuc i) h = ground arith
