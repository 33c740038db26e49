-- ===== src/Array/Calls.antt =====
-- mptcore/array: the calls that change one array, with what their callers have to see to.
use mpt_base.Prelude.{
  ℕ, ◌+◌, ◌*◌, ◌^◌, ◌<◌, ◌≤◌, ◌≡◌, refl, true, false, ◌||◌, Option, none, some, Run,
}
use mpt_base.Prelude.Mem.{Bytes}
use mpt_base.Array.{Traits, Buffer, Memory, is_aligned, larger}
use mpt_base.Array.Shared.{Store, Outcome, is_shared, array_slice, array_insert, array_append}
use mpt_base.Array.Replace.{array_set, element_place}
use mpt_base.Array.Held.{IsHeld, IsFree}
use mpt_base.Array.Owned.{Changes}
use mpt_base.Array.Slice.{array_slice-Changes}
use mpt_base.Array.Insert.{array_insert-Changes}
use mpt_base.Array.Append.{array_append-Changes}
use mpt_base.Array.Set.{array_set-Changes}
use mpt_base.Array.New.{array_slice_new, array_insert_new, array_append_new, array_set_new}

absurd : {A : Type 0} → ¬ (◌≡◌ {A = ℕ} 0 0) → A
absurd n = let no : ⊥ = n refl in elim no [ ]

-- A call that changes one array.
pub data Call : Type 0 where
  slice : (off len : ℕ) → Call
  insert : (pos len : ℕ) → Call
  append : Option Bytes → (len : ℕ) → Call
  set : Traits → (len : ℕ) → Option Bytes → (off : ℕ) → Call

abbrev pub call : Call → Store → ℕ → Memory → Run (Outcome (Option ℕ))
call (slice off len) s p m = array_slice s p off len m
call (insert pos len) s p m = array_insert s p pos len m
call (append d len) s p m = array_append s p d len m
call (set u len d off) s p m = array_set s p (some u) len d off m

-- What a caller has to see to, for the buffer that the array has: lengths below 2 ^ 62 and whole
-- elements; that an insertion finds no immutable buffer, an append has its buffer alone or
-- finds no space in it, and elements that end inside of the content are set in a buffer that is
-- neither shared nor immutable. For new elements there must be memory.
abbrev pub Allowed : Call → Option Buffer → Memory → Type 0
Allowed (slice off len) none m = off + len < 2 ^ 62
Allowed (slice off len) (some b) m =
    (off + len < 2 ^ 62) × (b.used < 2 ^ 62) × (is_aligned b.traits off len b.used ≡ true)
Allowed (insert pos len) none m = pos + len < 2 ^ 62
Allowed (insert pos len) (some b) m =
    (larger b.used pos + len < 2 ^ 62)
    × (0 < len)
    × (b.immutable ≡ false)
    × (is_aligned b.traits b.used pos len ≡ true)
Allowed (append d len) none m = len < 2 ^ 62
Allowed (append d len) (some b) m =
    (b.used + len < 2 ^ 62) × (b.traits ≡ none) × (b.used + len ≤ b.size → b.refs ≡ 1)
Allowed (set u len d off) none m =
    ¬ (m.address ≡ 0) × (off * u.size + len < 2 ^ 62) × (is_aligned (some u) len 0 0 ≡ true)
Allowed (set u len d off) (some b) m =
    (element_place u.size off b.used + len < 2 ^ 62)
    × (b.traits ≡ some u)
    × (is_aligned (some u) b.used (element_place u.size off b.used) len ≡ true)
    × (element_place u.size off b.used + len < b.used → b.immutable || is_shared b ≡ false)

-- A call that is allowed for the array as it is.
pub data Given (s : Store) (p : ℕ) (c : Call) (m : Memory) : Type 0 where
  given_none : p ≡ 0 → Allowed c none m → Given s p c m
  given_some : (b : Buffer) → ¬ (p ≡ 0) → s p ≡ some b → Allowed c (some b) m → Given s p c m

-- The change that a call makes.
pub data Called (s : Store) (p : ℕ) (m : Memory) (r : Run (Outcome (Option ℕ))) : Type 1 where
  called :
      (b : Buffer) (Holds : Buffer → Type 0) (place : ℕ)
      → (¬ (p ≡ 0) → IsHeld s p b)
      → Changes s p b m Holds place r
      → Called s p m r

pub Called-new :
    (s : Store) (c : Call) (m : Memory)
    → IsFree s m
    → Allowed c none m
    → Called s 0 m (call c s 0 m)
Called-new s (slice off len) m free h =
    called _ _ _ (λ n. absurd n) (array_slice_new s m free off len h)
Called-new s (insert pos len) m free h =
    called _ _ _ (λ n. absurd n) (array_insert_new s m free pos len h)
Called-new s (append d len) m free h =
    called _ _ _ (λ n. absurd n) (array_append_new s m free d len h)
Called-new s (set u len d off) m free (n, h, a) =
    called _ _ _ (λ n. absurd n) (array_set_new s m free n u len d off h a)

pub Called-old :
    (s : Store) (p : ℕ) (b : Buffer) (c : Call) (m : Memory)
    → IsHeld s p b
    → IsFree s m
    → Allowed c (some b) m
    → Called s p m (call c s p m)
Called-old s p b (slice off len) m held free (h, k, a) =
    called b _ _ (λ n. held) (array_slice-Changes s p b off len m held free h k a)
Called-old s p b (insert pos len) m held free (h, k, w, a) =
    called b _ _ (λ n. held) (array_insert-Changes s p b pos len m held free h k w a)
Called-old s p b (append d len) m held free (h, r, o) =
    called b _ _ (λ n. held) (array_append-Changes s p b d len m held free h r o)
Called-old s p b (set u len d off) m held free (h, t, a, o) =
    called b _ _ (λ n. held) (array_set-Changes s p b u len d off _ m held free refl h t a o)
