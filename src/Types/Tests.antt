-- ===== src/Types/Tests.antt =====
-- The registry of types at examples.
use mpt_base.Prelude.{
  ℕ, ◌+◌, ◌<◌, ◌≤◌, ◌≡◌, refl, true, false, none, some, List, [], ◌∷◌, ◌++◌, replicate, ok, arith,
  ◌⊎◌, done, fault,
}
use mpt_base.Array.{Traits}
use mpt_base.Types.{
  Chunks, Named, type_add, add_entry, generic_traits, type_basic_add, type_metatype_add, add_meta,
  add_chunks, named_entry, metatype_traits, find_name, same_name, MetaMemory, absent, linked,
  metatype,
}
use mpt_base.Types.Chunks.{IsFilled}
use mpt_base.Types.Add.{type_add_lem}
use mpt_base.Types.Interface.{
  TableMemory, core_table, type_interface_add, interface_traits, add_to_table, add_interface,
  find_interface,
}
use mpt_base.Types.Metas.{Metas}

abbrev pair : Traits
pair = record { id = 5; size = 16 }

-- A full chunk and one with an entry.
abbrev two_chunks : Chunks Traits
two_chunks = replicate 30 pair ∷ (pair ∷ []) ∷ []

two_chunks-IsFilled : IsFilled two_chunks
two_chunks-IsFilled = (omega arith, (λ h. refl), (omega arith, (λ h. elim h [ ]), omega arith))

type_add_lem_example :
    (((true ≡ false) ⊎ (0xfff < 0x900 + 31))
      × ((type_add two_chunks (some pair) true).0 ≡ two_chunks))
    ⊎ ((cs' : Chunks Traits) × (type_add two_chunks (some pair) true ≡ (cs', ok (0x900 + 31)))
        × (0x900 + 31 ≤ 0xfff)
        × IsFilled cs'
        × (generic_traits cs' (0x900 + 31) ≡ some pair)
        × ((type : ℕ)
            → 0x900 ≤ type
            → type < 0x900 + 31
            → generic_traits cs' type ≡ generic_traits two_chunks type))
type_add_lem_example =
    type_add_lem two_chunks pair true two_chunks-IsFilled (λ h. ground (arith, h))

add_number : (type_add two_chunks (some pair) true).1 ≡ ok 0x91f
unfolding type_add add_entry
add_number = refl

basic_number : type_basic_add (4 ∷ 2 ∷ []) 0 true ≡ (4 ∷ 2 ∷ 8 ∷ [], ok 0xc2)
unfolding type_basic_add
basic_number = refl

-- The name "meta".
abbrev meta_name : List ℕ
meta_name = 109 ∷ 101 ∷ 116 ∷ 97 ∷ []

abbrev plenty : MetaMemory
plenty = record { first = true; base = true; chunk = true; entry = true }

-- The first number of a program is the one behind the built-in metatype.
meta_added : type_metatype_add absent (some meta_name) plenty ≡ (
    let e : Named = record { name = some meta_name; type = 0x101 } in
    done (linked (metatype ∷ e ∷ []) [], some e))
unfolding type_metatype_add add_chunks add_meta named_entry find_name same_name
meta_added = refl

-- Without memory for the chunk, its null pointer is read, and without memory for the built-in entry,
-- a link that was never written.
abbrev no_chunk : MetaMemory
no_chunk = record { first = false; base = true; chunk = true; entry = true }

abbrev no_base : MetaMemory
no_base = record { first = true; base = false; chunk = true; entry = true }

meta_null : type_metatype_add absent (some meta_name) no_chunk ≡ fault
unfolding type_metatype_add
meta_null = refl

meta_unlinked : type_metatype_add absent (some meta_name) no_base ≡ fault
unfolding type_metatype_add find_name
meta_unlinked = refl

meta_unlinked_read : metatype_traits absent 0x100 no_base ≡ fault
unfolding metatype_traits
meta_unlinked_read = refl

abbrev space : TableMemory
space = record { table = true; core = λ i. true; entry = true }

-- The first number of a program, and a built-in name, which is refused.
interface_added : type_interface_add none (some meta_name) space ≡ (
    let e : Named = record { name = some meta_name; type = 0x90 } in
    done (some (core_table space ++ some e ∷ []), some e))
unfolding type_interface_add add_to_table add_interface find_interface same_name
interface_added = refl

interface_known :
    type_interface_add none (some (108 ∷ 111 ∷ 103 ∷ 103 ∷ 101 ∷ 114 ∷ [])) space
    ≡ done (some (core_table space), none)
unfolding type_interface_add add_to_table find_interface same_name
interface_known = refl

-- Without memory for the table, an entry is written to a null pointer, or read from it.
abbrev no_space : TableMemory
no_space = record { table = false; core = λ i. true; entry = true }

interface_null : type_interface_add none (some meta_name) no_space ≡ fault
unfolding type_interface_add
interface_null = refl

interface_null_read : interface_traits none 0x80 no_space ≡ fault
unfolding interface_traits
interface_null_read = refl
