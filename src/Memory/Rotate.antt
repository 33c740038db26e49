-- ===== src/Memory/Rotate.antt =====
-- mptcore/queue/memrev.c: two neighbouring areas of memory change places, over a buffer of 1024
-- bytes. The pointers are addresses in one object that holds both areas.
pub mod Laws
mod Tests
use mpt_base.Prelude.{
  ℕ, zero, suc, ◌+◌, ◌-◌, ◌*◌, ◌/◌, ◌%◌, ◌<◌, ◌≤◌, ◌≡◌, ◌==◌, ◌&&◌, ◌||◌, ltb, leb, if◌then◌else◌,
  Run, done, fault, Result, ok, err, bad_argument, ◌>>=◌,
}
use mpt_base.Prelude.Mem.{Bytes, blit}

abbrev pub block : ℕ
block = 1024

-- The three copies over the buffer.
abbrev pub swap_block : Bytes → (from to n : ℕ) → Bytes
swap_block m from to n = let buf = blit (λ _. 0) 0 m from n in blit (blit m from m to n) to buf 0 n

-- The loop over the whole blocks, and the copies of what is left.
unfoldable pub swap_parts : (parts rest from to : ℕ) → Bytes → Bytes
swap_parts zero rest from to m = if rest == 0 then m else swap_block m from to rest
swap_parts (suc k) rest from to m =
    swap_parts k rest (from + block) (to + block) (swap_block m from to block)

-- `mpt_memswap`
unfoldable pub memswap : Bytes → (from to len : ℕ) → Bytes
memswap m from to len = swap_parts (len / block) (len % block) from to m

-- The loop of `mpt_memrev`. It is a fault to run out of fuel.
unfoldable pub rotate_loop : (fuel at pre post : ℕ) → Bytes → Run Bytes
rotate_loop zero at pre post m = fault
rotate_loop (suc fuel) at pre post m =
    let lower = rotate_loop fuel (at + pre) pre (post - pre) (memswap m at (at + pre) pre) in
    let upper =
      rotate_loop fuel at (pre - post) post (memswap m (at + (pre - post)) (at + pre) post) in
    if pre == 0 || post == 0
    then done m
    else if leb pre block
    then done (blit (blit m at m (at + pre) post) (at + post) (blit (λ _. 0) 0 m at pre) 0 pre)
    else if leb post block
    then done (blit (blit m (at + post) m at pre) at (blit (λ _. 0) 0 m (at + pre) post) 0 post)
    else if ltb pre post
    then lower
    else upper

-- `mpt_memrev`
unfoldable pub memrev : Bytes → (at pre len : ℕ) → Run (Result ℕ × Bytes)
memrev m at pre len =
    if ltb len pre
    then done (err bad_argument, m)
    else rotate_loop (len + 1) at pre (len - pre) m >>= λ m'. done (ok 0, m')
