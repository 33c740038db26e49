-- ===== src/Hash/Tests.antt =====
-- Runs of the hashes, and their theorems at concrete data.
use mpt_base.Prelude.{◌≡◌, refl, none, some, arith, ◌==◌, if◌then◌else◌}
use mpt_base.Prelude.Mem.{Bytes}
use mpt_base.Hash.{hash_counted, hash_djb2, hash_smdb, hash}
use mpt_base.Hash.Laws.{IsString, hash_string_lem}

-- The string "ab" at the address 0.
abbrev ab : Bytes
ab a = if a == 0 then 97 else if a == 1 then 98 else 0

djb2_run : hash_djb2 3 (some ab) 0 (some 1) ≡ some 177604
unfolding hash_djb2 hash_counted
djb2_run = refl

smdb_run : hash_smdb 3 (some ab) 0 (some 2) ≡ some 6363201
unfolding hash_smdb hash_counted
smdb_run = refl

ab-IsString : IsString ab 0 2
ab-IsString = record { ends = refl; inner = λ i h z. ground arith }

hash_string_lem_example : hash 3 none (some ab) 0 none ≡ hash 3 none (some ab) 0 (some 2)
hash_string_lem_example = hash_string_lem none ab 3 0 2 ab-IsString (omega arith)
