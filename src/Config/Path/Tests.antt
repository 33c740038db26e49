-- ===== src/Config/Path/Tests.antt =====
-- Runs on paths, and the theorems at concrete ones.
use mpt_base.Prelude.{
  ℕ, ◌+◌, ◌≡◌, ◌<◌, ◌≤◌, ◌^◌, ◌⊎◌, done, refl, none, some, ◌∷◌, arith, ok, ◌==◌, if◌then◌else◌,
  length,
}
use mpt_base.Prelude.Int.{as_int}
use mpt_base.Prelude.Mem.{Bytes}
use mpt_base.Prelude.Slice.{slice}
use mpt_base.Config.Path.{ElementPath, path_next, path_set, memchr, scan_text}
use mpt_base.Config.Path.Split.{split}
use mpt_base.Config.Path.Next.{IsText, elements, path_next_lem}
use mpt_base.Config.Path.Set.{before, path_set_lem}

-- The text "a.bc=" at the address 0.
abbrev text : Bytes
text a =
    if a == 0
    then 97
    else if a == 1
    then 46
    else if a == 2
    then 98
    else if a == 3
    then 99
    else if a == 4
    then 61
    else 0

abbrev empty : ElementPath
empty = record { base = none; off = 0; len = 0; first = 0; flags = 0; sep = 46; assign = 61 }

abbrev set_ : ElementPath
set_ = record { base = some text; off = 0; len = 5; first = 1; flags = 0; sep = 46; assign = 61 }

set_run : path_set empty (some text) none 5 ≡ done (set_, 2)
unfolding path_set scan_text
set_run = refl

set-IsText : IsText text set_
set-IsText = record {
  base = refl;
  text = refl;
  first = λ ne. unfold memchr in refl;
  bound = omega arith;
}

path_next_lem_example :
    (p' : ElementPath) × (n : ℕ) × (path_next set_ ≡ (p', as_int n))
    × ((2 ^ 31 ≤ n) ⊎ (path_next set_ ≡ (p', ok n)))
    × (elements text set_ ≡ slice text 0 n ∷ elements text p')
    × IsText text p'
path_next_lem_example = path_next_lem text set_ set-IsText (omega arith)

few_parts : length (split 46 (before 61 (slice text 0 6))) < 2 ^ 31
unfolding before split
few_parts = omega arith

path_set_lem_example :
    (p' : ElementPath) × (count : ℕ) × (path_set empty (some text) none 5 ≡ done (p', count))
    × IsText text p'
    × (elements text p' ≡ split 46 (before 61 (slice text 0 6)))
    × (count + (if length (before 61 (slice text 0 6)) == 6 then 1 else 0)
        ≡ length (split 46 (before 61 (slice text 0 6))))
path_set_lem_example = path_set_lem empty text none 5 (omega arith) few_parts

-- The path behind the first element.
abbrev next : ElementPath
next = record set_ { off = 2; len = 3; first = 0 }

-- The binary element "A" with the lengths around it.
abbrev binary : Bytes
binary a = if a == 0 then 65 else if a == 1 then 1 else 0

abbrev one : ElementPath
one = record { base = some binary; off = 0; len = 3; first = 1; flags = 128; sep = 0; assign = 0 }
