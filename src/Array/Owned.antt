-- ===== src/Array/Owned.antt =====
-- mptcore/array: a buffer that one array alone has, and the other references to it counted.
use mpt_base.Prelude.{ℕ, ◌-◌, ◌<◌, ◌≡◌, refl, sym, ap, ◌∙◌, true, Option, none, some, Run, arith}
use mpt_base.Array.{Buffer, Memory, is_aligned}
use mpt_base.Array.Content.{IsValid}
use mpt_base.Array.Shared.{Store, Outcome, leaves, put_buffer}
use mpt_base.Array.Held.{
  may_refuse, IsHeld, Moves, Detached, refs, count, refs-put_buffer, put_buffer_other,
  put_buffer_here,
}

-- What a change of an array at `p` with the buffer `b` leaves, where it gives the buffer `c` at `p'`:
-- the array alone has it, the references are counted, `b` loses one or is freed where it is left, and
-- no other buffer has changed.
pub record Owned (s : Store) (p : ℕ) (b : Buffer) (t : Store) (p' : ℕ) (c : Buffer) : Type 0 where
  pub held : IsHeld t p' c
  pub alone : c.refs ≡ 1
  pub moves : Moves s p t p'
  pub others : (q : ℕ) → ¬ (q ≡ p) → ¬ (q ≡ p') → t q ≡ s q
  pub shared : 1 < b.refs → ¬ (p' ≡ p) × (t p ≡ some (record b { refs = b.refs - 1 }))
  pub gone : b.refs ≡ 1 → ¬ (p' ≡ p) → t p ≡ none

pub Detached-Owned :
    {s t : Store} {p p' len : ℕ} {b : Buffer} (d : Detached s p b len t p') → Owned s p b t p' d.own
Detached-Owned d = record {
  held = d.held;
  alone = d.alone;
  moves = d.moves;
  others = d.others;
  shared = d.shared;
  gone = d.gone;
}

-- The buffer at `p'` changed by the array that owns it.
pub put_buffer-Owned :
    (s t : Store) (p p' : ℕ) (b c c' : Buffer)
    → Owned s p b t p' c
    → c'.refs ≡ c.refs
    → IsValid c'
    → is_aligned c'.traits c'.used 0 0 ≡ true
    → Owned s p b (put_buffer t p' (some c')) p' c'
put_buffer-Owned s t p p' b c c' o e v a = record {
  held = record {
    not_null = o.held.not_null;
    is = put_buffer_here t p' (some c');
    valid = v;
    counted = omega (arith, o.alone, e);
    whole = a;
  };
  alone = e ∙ o.alone;
  moves = λ q n.
      (let old : refs t p' ≡ c.refs = ap count o.held.is in
        ground (arith, refs-put_buffer t p' q (some c'), o.moves q n, old, e));
  others = λ q u w. put_buffer_other t p' q (some c') w ∙ o.others q u w;
  shared =
      λ h. (let (n, k) = o.shared h in (n, put_buffer_other t p' p (some c') (λ z. n (sym z)) ∙ k));
  gone = λ h n. put_buffer_other t p' p (some c') (λ z. n (sym z)) ∙ o.gone h n;
}

-- The array keeps the buffer that it alone has.
pub kept-Owned : (s : Store) (p : ℕ) (b : Buffer) → IsHeld s p b → b.refs ≡ 1 → Owned s p b s p b
kept-Owned s p b held e = record {
  held = held;
  alone = e;
  moves = λ q n. refl;
  others = λ q u w. refl;
  shared = λ h. (let no : ⊥ = omega arith in elim no [ ]);
  gone = λ h n. (let no : ⊥ = n refl in elim no [ ]);
}

-- What a change ends with that is to give the array a buffer with a property, and the place `place`.
pub data Changes (s : Store) (p : ℕ) (b : Buffer) (m : Memory) (Holds : Buffer → Type 0) (place : ℕ)
    (r : Run (Outcome (Option ℕ))) : Type 0 where
  unchanged : may_refuse b m ≡ true → r ≡ leaves s p none → Changes s p b m Holds place r
  changed :
      (t : Store) (p' : ℕ) (c : Buffer)
      → r ≡ leaves t p' (some place)
      → Owned s p b t p' c
      → Holds c
      → Changes s p b m Holds place r
