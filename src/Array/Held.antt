-- ===== src/Array/Held.antt =====
-- mptcore/array: the buffers that arrays have, and the references to them.
use mpt_base.Prelude.{
  ℕ, ◌+◌, ◌-◌, ◌^◌, ◌<◌, ◌≤◌, ◌≡◌, refl, Bool, true, false, not, ◌&&◌, ◌||◌, ◌==◌, leb,
  if◌then◌else◌, Option, none, some, Run, done, arith,
}
use mpt_base.Array.{Buffer, Memory, alloc_size, is_aligned}
use mpt_base.Array.Content.{IsValid}
use mpt_base.Array.Shared.{Store, put_buffer}

abbrev pub count : Option Buffer → ℕ
count none = 0
count (some b) = b.refs

-- The references that the buffer at an address counts.
abbrev pub refs : Store → ℕ → ℕ
refs s q = count (s q)

abbrev pub one_if : Bool → ℕ
one_if true = 1
one_if false = 0

-- One reference that moves from `p` to `p'`, either of which may be null.
abbrev pub Moves : Store → ℕ → Store → ℕ → Type 0
Moves s p t p' = (q : ℕ) → ¬ (q ≡ 0) → refs t q + one_if (q == p) ≡ refs s q + one_if (q == p')

-- The address that `malloc` gives has no buffer.
pub record IsFree (s : Store) (m : Memory) : Type 0 where
  pub free : s m.address ≡ none

-- A buffer at an address: it is valid, has a reference, and holds whole elements.
pub record IsHeld (s : Store) (p : ℕ) (b : Buffer) : Type 0 where
  pub not_null : ¬ (p ≡ 0)
  pub is : s p ≡ some b
  pub valid : IsValid b
  pub counted : 0 < b.refs
  pub whole : is_aligned b.traits b.used 0 0 ≡ true

-- The array's own buffer `c` at `p'`, in place of the buffer `b` at `p`: it has the same content, and
-- no other reference; all others see what they have seen before.
pub record Detached (s : Store) (p : ℕ) (b : Buffer) (len : ℕ) (t : Store) (p' : ℕ) : Type 0 where
  pub own : Buffer
  pub held : IsHeld t p' own
  pub alone : own.refs ≡ 1
  pub writable : own.immutable ≡ false
  pub used : own.used ≡ b.used
  pub traits : own.traits ≡ b.traits
  pub room : len ≤ own.size
  pub bytes : (i : ℕ) → i < b.used → own.bytes i ≡ b.bytes i
  pub moves : Moves s p t p'
  pub others : (q : ℕ) → ¬ (q ≡ p) → ¬ (q ≡ p') → t q ≡ s q
  pub shared : 1 < b.refs → ¬ (p' ≡ p) × (t p ≡ some (record b { refs = b.refs - 1 }))
  pub gone : b.refs ≡ 1 → ¬ (p' ≡ p) → t p ≡ none

-- A buffer of its own is refused if there is no memory, or for content that is shared and must not
-- be copied.
abbrev pub may_refuse : Buffer → Memory → Bool
may_refuse b m = m.address == 0 || (leb 2 b.refs && (b.no_copy && not (b.used == 0)))

-- What a call of `detach` ends with.
pub data Detaches (s : Store) (p : ℕ) (b : Buffer) (len : ℕ) (m : Memory) (r : Run (Store × ℕ))
    : Type 0 where
  refused : may_refuse b m ≡ true → r ≡ done (s, 0) → Detaches s p b len m r
  detached :
      (t : Store) (p' : ℕ) → r ≡ done (t, p') → Detached s p b len t p' → Detaches s p b len m r

pub alloc_size-le : (len : ℕ) → len < 2 ^ 62 → (len ≤ alloc_size len) × (alloc_size len < 2 ^ 63)
alloc_size-le len h = (omega arith, omega arith)

pub put_buffer_other :
    (s : Store) (p q : ℕ) (b : Option Buffer) → ¬ (q ≡ p) → put_buffer s p b q ≡ s q
put_buffer_other s p q b n = ground arith

pub put_buffer_here : (s : Store) (p : ℕ) (b : Option Buffer) → put_buffer s p b p ≡ b
put_buffer_here s p b = ground arith

pub refs-put_buffer :
    (s : Store) (p q : ℕ) (o : Option Buffer)
    → refs (put_buffer s p o) q ≡ (if q == p then count o else refs s q)
refs-put_buffer s p q o = if-count (q == p) o (s q)
  where
    if-count :
        (b : Bool) (o u : Option Buffer)
        → count (if b then o else u) ≡ (if b then count o else count u)
    if-count true o u = refl
    if-count false o u = refl
