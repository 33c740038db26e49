-- ===== src/Bitmap/Tests.antt =====
-- Runs of the bit operations, and their theorems at a concrete map.
use mpt_base.Prelude.{◌≡◌, refl, ok, arith, if◌then◌else◌}
use mpt_base.Prelude.Int.{pos}
use mpt_base.Prelude.Mem.{Bytes}
use mpt_base.Bitmap.{bitmap_set, bitmap_unset, bitmap_get}
use mpt_base.Bitmap.Laws.{bitmap_set-get, clear}

abbrev full : Bytes
full _ = 255

get_runs : bitmap_get (bitmap_unset full 2 (pos 9)).1 2 (pos 9) ≡ ok 0
unfolding bitmap_get bitmap_unset
get_runs = refl

bitmap_set-get_example :
    (bitmap_get (bitmap_set full 2 (pos 9)).1 2 (pos 3) ≡ bitmap_get full 2 (pos 3))
    × ((bitmap_set full 2 (pos 9)).0 ≡ (if clear 255 1 then ok 1 else ok 0))
bitmap_set-get_example = bitmap_set-get full 2 9 3 (λ a. omega arith) (omega arith) (omega arith)
