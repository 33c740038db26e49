-- ===== src/Message/Read/Laws.antt =====
-- Reading from the parts against reading from the message's data as one list.
use mpt_base.Prelude.{
  ℕ, zero, suc, ◌+◌, ◌-◌, ◌≤◌, ◌≡◌, refl, sym, ap, ◌∙◌, List, [], ◌∷◌, ◌++◌, length, length-append,
  length-drop, take, drop, arith, ltb, inl, inr, Bool-cases,
}
use Prim.Native.Nat.{min}
use mpt_base.Message.Read.{
  PartedMessage, Reading, skip_empty, read_last, with_part, read_loop, message_read, message_length,
  sum_lengths,
}

abbrev pub concat : List (List ℕ) → List ℕ
concat [] = []
concat (v ∷ cont) = v ++ concat cont

-- All bytes of a message in order.
abbrev pub data_of : PartedMessage → List ℕ
data_of m = m.base ++ concat m.cont

take-append : (n : ℕ) (x y : List ℕ) → length x ≤ n → take n (x ++ y) ≡ x ++ take (n - length x) y
take-append n [] y h = ap (λ (k : ℕ). take k y) (omega arith)
take-append zero (c ∷ x) y h = absurd (omega arith)
take-append (suc n) (c ∷ x) y h =
    ap (λ (r : List ℕ). c ∷ r)
      (take-append n x y (omega arith) ∙ ap (λ (k : ℕ). x ++ take k y) (omega arith))

drop-append : (n : ℕ) (x y : List ℕ) → length x ≤ n → drop n (x ++ y) ≡ drop (n - length x) y
drop-append n [] y h = ap (λ (k : ℕ). drop k y) (omega arith)
drop-append zero (c ∷ x) y h = absurd (omega arith)
drop-append (suc n) (c ∷ x) y h =
    drop-append n x y (omega arith) ∙ ap (λ (k : ℕ). drop k y) (omega arith)

take-within : (n : ℕ) (x y : List ℕ) → n ≤ length x → take n (x ++ y) ≡ take n x
take-within zero x y h = refl
take-within (suc n) [] y h = absurd (omega arith)
take-within (suc n) (c ∷ x) y h = ap (λ (r : List ℕ). c ∷ r) (take-within n x y (omega arith))

drop-within : (n : ℕ) (x y : List ℕ) → n ≤ length x → drop n (x ++ y) ≡ drop n x ++ y
drop-within zero x y h = refl
drop-within (suc n) [] y h = absurd (omega arith)
drop-within (suc n) (c ∷ x) y h = drop-within n x y (omega arith)

skip_empty-data :
    (base : List ℕ) (cont : List (List ℕ)) → data_of (skip_empty base cont) ≡ base ++ concat cont
unfolding skip_empty
skip_empty-data base [] = refl
skip_empty-data [] (v ∷ cont) = skip_empty-data v cont
skip_empty-data (c ∷ base) (v ∷ cont) = ground arith

-- A message whose current part is empty only if no part is left.
abbrev pub Normal : PartedMessage → Type 0
Normal m = length m.base ≡ 0 → m.cont ≡ []

skip_empty-Normal : (base : List ℕ) (cont : List (List ℕ)) → Normal (skip_empty base cont)
unfolding skip_empty
skip_empty-Normal base [] e = refl
skip_empty-Normal [] (v ∷ cont) e = skip_empty-Normal v cont e
skip_empty-Normal (c ∷ base) (v ∷ cont) e = ground arith

-- What a read of `len` bytes from the data `d` amounts to.
abbrev pub IsReading : (d : List ℕ) (len : ℕ) → Reading → Type 0
IsReading d len r =
    (r.copied ≡ take len d)
    × (data_of r.msg ≡ drop len d)
    × (r.total ≡ min len (length d))
    × Normal r.msg

read_last-IsReading :
    (base : List ℕ) (cont : List (List ℕ)) (len : ℕ)
    → len ≤ length base
    → IsReading (base ++ concat cont) len (read_last base cont len)
read_last-IsReading base cont len h =
    let size = length-append base (concat cont) in
    (
      sym (take-within len base (concat cont) h),
      skip_empty-data (drop len base) cont ∙ sym (drop-within len base (concat cont) h),
      omega arith,
      skip_empty-Normal (drop len base) cont,
    )

with_part-IsReading :
    (base d : List ℕ) (len : ℕ) (r : Reading)
    → length base ≤ len
    → IsReading d (len - length base) r
    → IsReading (base ++ d) len (with_part base r)
with_part-IsReading base d len r h (copied, kept, total, normal) =
    let size = length-append base d in
    (
      ap (λ (x : List ℕ). base ++ x) copied ∙ sym (take-append len base d h),
      kept ∙ sym (drop-append len base d h),
      omega arith,
      normal,
    )

nothing :
    (n : ℕ)
    → IsReading [] n (record { msg = record { base = []; cont = [] }; copied = []; total = 0 })
nothing zero = (refl, refl, omega arith, λ e. refl)
nothing (suc n) = (refl, refl, omega arith, λ e. refl)

read_loop-IsReading :
    (base : List ℕ) (cont : List (List ℕ)) (len : ℕ)
    → IsReading (base ++ concat cont) len (read_loop base cont len)
unfolding read_loop
read_loop-IsReading base [] len = elim (Bool-cases (ltb (length base) len)) [
  | inl t ↦ rw t (
      with_part-IsReading base [] len
        (record { msg = record { base = []; cont = [] }; copied = []; total = 0 }) (ground arith)
        (nothing (len - length base)))
  | inr f ↦ rw f (read_last-IsReading base [] len (ground arith))
]
read_loop-IsReading base (v ∷ cont) len = elim (Bool-cases (ltb (length base) len)) [
  | inl t ↦ rw t (
      with_part-IsReading base (v ++ concat cont) len (read_loop v cont (len - length base))
        (ground arith) (read_loop-IsReading v cont (len - length base)))
  | inr f ↦ rw f (read_last-IsReading base (v ∷ cont) len (ground arith))
]

sums :
    (base : List ℕ) (cont : List (List ℕ))
    → length base + sum_lengths cont ≡ length (base ++ concat cont)
sums base [] = sym (length-append base [])
sums base (v ∷ cont) =
    ap (λ (k : ℕ). length base + k) (sums v cont) ∙ sym (length-append base (v ++ concat cont))

length-data_of : (m : PartedMessage) → message_length m ≡ length (data_of m)
unfolding message_length
length-data_of m = sums m.base m.cont

-- Reading `len` bytes of a message copies the first `len` bytes of its data, or all of them if it
-- has fewer, and returns their number; the message keeps the data behind them, its length is less
-- by that number, and its current part is empty only if no part is left.
pub message_read_lem :
    (m : PartedMessage) (len : ℕ)
    → IsReading (data_of m) len (message_read m len)
      × (message_length (message_read m len).msg + (message_read m len).total ≡ message_length m)
unfolding message_read
message_read_lem m len =
    let reading = read_loop-IsReading m.base m.cont len in
    let left : message_length (message_read m len).msg ≡ length (data_of m) - len =
      length-data_of (message_read m len).msg ∙ ap length reading.1 ∙ length-drop len (data_of m) in
    let whole = length-data_of m in let total = reading.2 in (reading, omega arith)
