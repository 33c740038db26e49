-- ===== src/Memory/Rotate/Laws.antt =====
-- `mpt_memswap` exchanges and `mpt_memrev` rotates, whatever the sizes are.
use native.Mathlib.Decide.{dec_lt, dec_le}
use mpt_base.Prelude.{
  ℕ, zero, suc, ◌+◌, ◌-◌, ◌*◌, ◌/◌, ◌%◌, ◌<◌, ◌≤◌, ◌≡◌, ◌⊎◌, ap, sym, ◌∙◌, inl, inr, ◌==◌, ◌&&◌,
  ltb, leb, if◌then◌else◌, Run, done, ok, err, bad_argument, arith, ◌||◌, true, Bool-cases,
  leb-true, leb-false, ltb-true, ltb-false,
}
use mathlib.Core.Path.{fun_ext}
use mpt_base.Prelude.Mem.{Bytes, blit}
use mpt_base.Memory.Rotate.{block, swap_block, swap_parts, memswap, rotate_loop, memrev}

-- The memory with two areas of `n` bytes exchanged.
abbrev pub swapped : Bytes → (from to n : ℕ) → Bytes
swapped m from to n a =
    if leb from a && ltb a (from + n)
    then m (to + (a - from))
    else if leb to a && ltb a (to + n)
    then m (from + (a - to))
    else m a

abbrev Apart : (from to n : ℕ) → Type 0
Apart from to n = (from + n ≤ to) ⊎ (to + n ≤ from)

swap_block-swapped :
    (m : Bytes) (from to n a : ℕ)
    → Apart from to n
    → swap_block m from to n a ≡ swapped m from to n a
swap_block-swapped m from to n a h = ground arith

swapped-swapped :
    (m : Bytes) (from to b n a : ℕ)
    → from + (b + n) ≤ to
    → swapped (swapped m from to b) (from + b) (to + b) n a ≡ swapped m from to (b + n) a
swapped-swapped m from to b n a h = ground arith

swapped_comm :
    (m : Bytes) (from to n a : ℕ) → to + n ≤ from → swapped m from to n a ≡ swapped m to from n a
swapped_comm m from to n a h = ground arith

swapped-swapped_below :
    (m : Bytes) (from to b n a : ℕ)
    → to + (b + n) ≤ from
    → swapped (swapped m from to b) (from + b) (to + b) n a ≡ swapped m from to (b + n) a
swapped-swapped_below m from to b n a h = ground arith

swapped_step :
    (m : Bytes) (from to b n a : ℕ)
    → Apart from to (b + n)
    → swapped (swap_block m from to b) (from + b) (to + b) n a ≡ swapped m from to (b + n) a
swapped_step m from to b n a h =
    let e : swap_block m from to b ≡ swapped m from to b =
      fun_ext (λ x. swap_block-swapped m from to b x (omega arith)) in
    ap (λ (f : Bytes). swapped f (from + b) (to + b) n a) e ∙ elim h [
      | inl above ↦ swapped-swapped m from to b n a above
      | inr below ↦ swapped-swapped_below m from to b n a below
    ]

swap_parts-swapped :
    (k rest from to a : ℕ) (m : Bytes)
    → Apart from to (k * block + rest)
    → swap_parts k rest from to m a ≡ swapped m from to (k * block + rest) a
unfolding swap_parts
swap_parts-swapped zero rest from to a m h = ground (arith, swap_block-swapped m from to rest a)
swap_parts-swapped (suc k) rest from to a m h =
    let n = k * block + rest in
    let e : suc k * block + rest ≡ block + n = omega arith in
    swap_parts-swapped k rest (from + block) (to + block) a (swap_block m from to block)
      (omega arith)
    ∙ swapped_step m from to block n a (omega arith)
    ∙ ap (λ (t : ℕ). swapped m from to t a) (sym e)

pub memswap-swapped :
    (m : Bytes) (from to n a : ℕ) → Apart from to n → memswap m from to n a ≡ swapped m from to n a
unfolding memswap
memswap-swapped m from to n a h =
    ground (arith, swap_parts-swapped (n / block) (n % block) from to a m (omega arith))

-- The memory with the `pre` bytes from `at` on behind the `post` bytes that follow them.
abbrev pub rotated : Bytes → (at pre post : ℕ) → Bytes
rotated m at pre post a =
    if leb at a && ltb a (at + post)
    then m (a + pre)
    else if leb (at + post) a && ltb a (at + post + pre)
    then m (a - post)
    else m a

rotated_none :
    (m : Bytes) (at pre post a : ℕ) → (pre == 0 || post == 0) ≡ true → m a ≡ rotated m at pre post a
rotated_none m at pre post a h = ground arith

rotated_pre :
    (m : Bytes) (at pre post a : ℕ)
    → blit (blit m at m (at + pre) post) (at + post) (blit (λ _. 0) 0 m at pre) 0 pre a
      ≡ rotated m at pre post a
rotated_pre m at pre post a = ground arith

rotated_post :
    (m : Bytes) (at pre post a : ℕ)
    → blit (blit m (at + post) m at pre) at (blit (λ _. 0) 0 m (at + pre) post) 0 post a
      ≡ rotated m at pre post a
rotated_post m at pre post a = ground arith

-- One round of the loop, on the lower and on the upper area.
rotated-swapped_lower :
    (m : Bytes) (at pre post a : ℕ)
    → pre < post
    → rotated (swapped m at (at + pre) pre) (at + pre) pre (post - pre) a ≡ rotated m at pre post a
rotated-swapped_lower m at pre post a h = elim (dec_lt a (at + pre)) [
  | yes low ↦ ground arith
  | no high ↦ elim (dec_lt a (at + post)) [ yes middle ↦ ground arith | no far ↦ ground arith ]
]

rotated-swapped_upper :
    (m : Bytes) (at pre post a : ℕ)
    → post ≤ pre
    → rotated (swapped m (at + (pre - post)) (at + pre) post) at (pre - post) post a
      ≡ rotated m at pre post a
rotated-swapped_upper m at pre post a h = ground arith

memswap-eq :
    (m : Bytes) (from to n : ℕ) → Apart from to n → memswap m from to n ≡ swapped m from to n
memswap-eq m from to n h = fun_ext (λ a. memswap-swapped m from to n a h)

-- The result of a loop that has done its work.
abbrev pub Rotates : Run Bytes → Bytes → (at pre post : ℕ) → Type 0
Rotates r m at pre post = (m' : Bytes) × (r ≡ done m') × ((a : ℕ) → m' a ≡ rotated m at pre post a)

rotate_loop-rotated :
    (fuel at pre post : ℕ) (m : Bytes)
    → pre + post < fuel
    → Rotates (rotate_loop fuel at pre post m) m at pre post
unfolding rotate_loop
rotate_loop-rotated zero at pre post m h = absurd (omega arith)
rotate_loop-rotated (suc fuel) at pre post m h = elim (Bool-cases (pre == 0 || post == 0)) [
  | inl none_left ↦ (m, rw none_left, λ a. rotated_none m at pre post a none_left)
  | inr left ↦ elim (dec_le pre block) [
    | yes p ↦ (_, rw (left, leb-true pre block p), λ a. rotated_pre m at pre post a)
    | no p ↦ elim (dec_le post block) [
      | yes q ↦ (
        _,
        rw (left, leb-false pre block (omega arith), leb-true post block q),
        λ a. rotated_post m at pre post a,
      )
      | no q ↦ elim (dec_lt pre post) [
        | yes l ↦
            let (m', e, r) =
              rotate_loop-rotated fuel (at + pre) pre (post - pre) (memswap m at (at + pre) pre)
                (omega arith) in
            (
              m',
              rw
                  (
                    left,
                    leb-false pre block (omega arith),
                    leb-false post block (omega arith),
                    ltb-true pre post l,
                  )
                  e,
              λ a.
                  r a
                  ∙ ap (λ (f : Bytes). rotated f (at + pre) pre (post - pre) a)
                      (memswap-eq m at (at + pre) pre (omega arith))
                  ∙ rotated-swapped_lower m at pre post a l,
            )
        | no l ↦
            let (m', e, r) =
              rotate_loop-rotated fuel at (pre - post) post
                (memswap m (at + (pre - post)) (at + pre) post) (omega arith) in
            (
              m',
              rw
                  (
                    left,
                    leb-false pre block (omega arith),
                    leb-false post block (omega arith),
                    ltb-false pre post (omega arith),
                  )
                  e,
              λ a.
                  r a
                  ∙ ap (λ (f : Bytes). rotated f at (pre - post) post a)
                      (memswap-eq m (at + (pre - post)) (at + pre) post (omega arith))
                  ∙ rotated-swapped_upper m at pre post a (omega arith),
            )
      ]
    ]
  ]
]

-- On an area of `len` bytes, `mpt_memrev` ends, puts the first `pre` bytes behind the others, both
-- in order, and writes nowhere else; a `pre` above `len` is refused and changes nothing.
pub memrev_lem :
    (m : Bytes) (at pre len : ℕ)
    → (pre ≤ len
        → (m' : Bytes) × (memrev m at pre len ≡ done (ok 0, m'))
          × ((a : ℕ) → m' a ≡ rotated m at pre (len - pre) a))
      × (len < pre → memrev m at pre len ≡ done (err bad_argument, m))
unfolding memrev
memrev_lem m at pre len = (
  λ h.
      let (m', e, r) = rotate_loop-rotated (len + 1) at pre (len - pre) m (omega arith) in
      (m', rw (ltb-false len pre h, e), r),
  λ h. rw (ltb-true len pre h),
)
