-- ===== src/Prelude/Mem.antt =====
-- Memory as a function from addresses to bytes, relative to the start of an object, and the copies
-- of the C library: each names the sizes of the objects that it reads and writes.
use Prim.Native.Nat.{ℕ, ◌+◌, ◌-◌, ◌^◌, ◌%◌}
use mathlib.Core.Bool.{◌&&◌, ◌||◌}
use mpt_base.Prelude.Tests.{ltb, leb, ◌==◌, if◌then◌else◌}
use mpt_base.Prelude.Errors.{Run, done, fault}

abbrev pub Bytes : Type 0
Bytes = ℕ → ℕ

-- `n` bytes of `s` from `src` on, put into `m` from `dst` on.
abbrev pub blit : Bytes → ℕ → Bytes → ℕ → ℕ → Bytes
blit m dst s src n a = if leb dst a && ltb a (dst + n) then s (src + (a - dst)) else m a

-- Copies inside of one object of a size. `memcpy` must not be given areas that overlap.
abbrev pub memmove : ℕ → Bytes → ℕ → ℕ → ℕ → Run Bytes
memmove size m dst src n =
    if leb (dst + n) size && leb (src + n) size then done (blit m dst m src n) else fault

abbrev pub memcpy : ℕ → Bytes → ℕ → ℕ → ℕ → Run Bytes
memcpy size m dst src n =
    if leb (dst + n) src || leb (src + n) dst then memmove size m dst src n else fault

-- Copies between an object of a size and a buffer of the caller, which is taken to be long enough.
abbrev pub copy_in : ℕ → Bytes → ℕ → Bytes → ℕ → ℕ → Run Bytes
copy_in size m dst s src n = if leb (dst + n) size then done (blit m dst s src n) else fault

abbrev pub copy_out : ℕ → Bytes → ℕ → Bytes → ℕ → ℕ → Run Bytes
copy_out size m src d dst n = if leb (src + n) size then done (blit d dst m src n) else fault

-- `size_t` subtraction.
abbrev pub sub_size : ℕ → ℕ → ℕ
sub_size a b = (a + 2 ^ 64 - b) % 2 ^ 64

-- One byte written.
abbrev pub update : Bytes → ℕ → ℕ → Bytes
update m a v b = if b == a then v else m b
