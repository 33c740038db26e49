-- ===== src/Convert/Cobs/Reference.antt =====
-- COBS on whole messages: the encoding as blocks, and its decoder, apart from the code.
use native.Mathlib.Decide.{ℕ_discrete}
use mpt_base.Prelude.{
  ℕ, zero, suc, ◌+◌, ◌-◌, ◌≤◌, ◌≡◌, ◌≢◌, refl, ◌∙◌, List, [], ◌∷◌, ◌++◌, Bool, true, false, Option,
  none, some, length, length-append, ◌==◌, if◌then◌else◌, arith, ==-false, Bool-cases, inl, inr,
}
use mathlib.Core.Option
use mathlib.Core.List.{append_assoc, append-nil}

-- The blocks for a source, with the bytes `cur` of the block that is open.
unfoldable pub cobs : List ℕ → List ℕ → List ℕ
cobs cur [] = (length cur + 1) ∷ cur
cobs cur (c ∷ s) =
    let closed = ((length cur + 1) ∷ cur) ++ cobs [] s in
    let full = (255 ∷ (cur ++ (c ∷ []))) ++ cobs [] s in
    let open_ = cobs (cur ++ (c ∷ [])) s in
    if c == 0 then closed else if length cur == 253 then full else open_

-- The decoder: `n` bytes of the block are to come, and `full` says that no zero follows it.
unfoldable pub unblock : (n : ℕ) (full : Bool) → List ℕ → Option (List ℕ)
unblock zero full [] = some []
unblock zero full (c ∷ r) =
    let rest = unblock (c - 1) (c == 255) r in
    if c == 0 then none else if full then rest else Option.map (λ x. 0 ∷ x) rest
unblock (suc n) full [] = none
unblock (suc n) full (c ∷ r) = if c == 0 then none else Option.map (λ x. c ∷ x) (unblock n full r)

unfoldable pub uncobs : List ℕ → Option (List ℕ)
unfolding unblock
uncobs [] = none
uncobs (c ∷ r) = if c == 0 then none else unblock (c - 1) (c == 255) r

abbrev pub NoZero : List ℕ → Type 0
NoZero [] = Unit {0}
NoZero (c ∷ r) = (c ≢ 0) × NoZero r

pub NoZero-append : (x y : List ℕ) → NoZero x → NoZero y → NoZero (x ++ y)
NoZero-append [] y h k = k
NoZero-append (c ∷ r) y h k = (h.0, NoZero-append r y h.1 k)

add-sub_one : (n : ℕ) → n + 1 - 1 ≡ n
add-sub_one n = omega arith

unblock-append :
    (x : List ℕ) (full : Bool) (r y : List ℕ)
    → NoZero x
    → unblock 0 full r ≡ some y
    → unblock (length x) full (x ++ r) ≡ some (x ++ y)
unfolding unblock
unblock-append [] full r y h e = e
unblock-append (c ∷ x) full r y h e = rw (==-false c 0 h.0, unblock-append x full r y h.1 e)

unblock-uncobs :
    (full : Bool) (r y : List ℕ)
    → uncobs r ≡ some y
    → unblock 0 full r ≡ some (if full then y else 0 ∷ y)
unfolding uncobs
unblock-uncobs full [] y e = cc
unblock-uncobs true (c ∷ r) y e = ground arith
unblock-uncobs false (c ∷ r) y e = elim (Bool-cases (c == 0)) [
  | inl z ↦ ground arith
  | inr nz ↦ let e' : unblock (c - 1) (c == 255) r ≡ some y = ground arith in rw (nz, e')
]

-- A block, and what follows it.
uncobs_block :
    (cur r y : List ℕ)
    → NoZero cur
    → uncobs r ≡ some y
    → uncobs ((length cur + 1) ∷ (cur ++ r))
      ≡ some (cur ++ (if length cur + 1 == 255 then y else 0 ∷ y))
uncobs_block cur r y h e =
    let n = length cur in
    unfold uncobs in
    rw (==-false (n + 1) 0 (omega arith), add-sub_one n)
      (unblock-append cur (n + 1 == 255) r (if n + 1 == 255 then y else 0 ∷ y) h
        (unblock-uncobs (n + 1 == 255) r y e))

uncobs_last : (cur : List ℕ) → NoZero cur → uncobs ((length cur + 1) ∷ cur) ≡ some cur
unfolding uncobs
uncobs_last cur h =
    let n = length cur in
    rw (==-false (n + 1) 0 (omega arith), add-sub_one n)
      (rw append-nil at (unblock-append cur (n + 1 == 255) [] [] h (unfold unblock in refl)))

-- The decoder undoes the blocks, from any open block on.
pub uncobs-cobs :
    (cur src : List ℕ) → NoZero cur → length cur ≤ 253 → uncobs (cobs cur src) ≡ some (cur ++ src)
unfolding cobs
uncobs-cobs cur [] h l = rw append-nil (uncobs_last cur h)
uncobs-cobs cur (c ∷ s) h l =
    let ih = uncobs-cobs [] s tt (omega arith) in
    let more = cur ++ (c ∷ []) in
    let size : length more ≡ length cur + 1 = length-append cur (c ∷ []) ∙ omega arith in
    let joined : more ++ s ≡ cur ++ (c ∷ s) = append_assoc cur (c ∷ []) s in
    elim (ℕ_discrete c 0) [
      | yes z ↦ rw z (
          rw (==-false (length cur + 1) 255 (omega arith)) at (uncobs_block cur (cobs [] s) s h ih))
      | no nz ↦
          let h' : NoZero more = NoZero-append cur (c ∷ []) h (nz, tt) in
          elim (ℕ_discrete (length cur) 253) [
            | yes f ↦
                let full : length more + 1 ≡ 255 = omega arith in
                rw (==-false c 0 nz, f, ← joined)
                  (rw full at (uncobs_block more (cobs [] s) s h' ih))
            | no nf ↦
                rw (==-false c 0 nz, ==-false (length cur) 253 nf, ← joined)
                  (uncobs-cobs more s h' (omega arith))
          ]
    ]
