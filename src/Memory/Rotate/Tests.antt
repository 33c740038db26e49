-- ===== src/Memory/Rotate/Tests.antt =====
-- Runs of the rotation, and its theorem at a concrete memory.
use mpt_base.Prelude.{ℕ, ◌+◌, ◌≡◌, ◌≤◌, ◌<◌, refl, Run, done, fault, Result, ok, err, bad_argument}
use mpt_base.Prelude.Mem.{Bytes}
use mpt_base.Memory.Rotate.{memrev, rotate_loop}
use mpt_base.Memory.Rotate.Laws.{memrev_lem, rotated}

abbrev ramp : Bytes
ramp a = a + 10

abbrev byte_of : Run (Result ℕ × Bytes) → ℕ → ℕ
byte_of (done (_, m)) a = m a
byte_of fault a = 0

rotate_runs : byte_of (memrev ramp 1 2 5) 1 ≡ 13
unfolding memrev rotate_loop
rotate_runs = refl

memrev_lem_example :
    (2 ≤ 5
      → (m' : Bytes) × (memrev ramp 1 2 5 ≡ done (ok 0, m'))
        × ((a : ℕ) → m' a ≡ rotated ramp 1 2 3 a))
    × (5 < 2 → memrev ramp 1 2 5 ≡ done (err bad_argument, ramp))
memrev_lem_example = memrev_lem ramp 1 2 5
