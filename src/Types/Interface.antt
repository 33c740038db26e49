-- ===== src/Types/Interface.antt =====
-- mptcore/types/type_traits.c: interfaces, which stand in one table.
pub mod Laws
use mpt_base.Prelude.{
  ℕ, ◌+◌, ◌-◌, ◌<◌, ◌≤◌, ◌≡◌, refl, ap, Bool, true, false, ◌||◌, ltb, leb, if◌then◌else◌, Option,
  none, some, List, [], ◌∷◌, ◌++◌, length, length-append, get_elem?, replicate, Run, done, fault,
  ◌∙◌, arith, Bool-cases, Option-cases, ◌⊎◌, inl, inr,
}
use mpt_base.Types.{Named, has_name, same_name}
use mpt_base.Types.Chunks.{get-front, get-last}

-- The table up to `interface_pos`; a place may be left out.
abbrev pub Table : Type 0
Table = List (Option Named)

unfoldable pub find_interface : List ℕ → Table → Option Named
find_interface n [] = none
find_interface n (none ∷ es) = find_interface n es
find_interface n (some e ∷ es) = if has_name n e then some e else find_interface n es

-- An interface in the next place; `room` tells whether there is memory for it.
unfoldable pub add_interface : Table → Option (List ℕ) → (room : Bool) → Table × Option Named
add_interface es name room =
    let e : Named = record { name = name; type = 0x80 + length es } in
    if room then (es ++ some e ∷ [], some e) else (es, none)

-- `mpt_type_interface_add` on the table that there is, behind the test of its size.
unfoldable pub add_to_table : Table → Option (List ℕ) → (room : Bool) → Table × Option Named
add_to_table es none room = add_interface es none room
add_to_table es (some n) room = elim (find_interface n es) [
  | some e ↦ (es, none)
  | none ↦ if ltb (length n) 4 then (es, none) else add_interface es (some n) room
]

-- `core_interfaces`
abbrev pub core_interfaces : List Named
core_interfaces =
    record {
      name = some (99 ∷ 111 ∷ 110 ∷ 118 ∷ 101 ∷ 114 ∷ 116 ∷ 97 ∷ 98 ∷ 108 ∷ 101 ∷ []);
      type = 0x80;
    }
    ∷ record { name = some (108 ∷ 111 ∷ 103 ∷ 103 ∷ 101 ∷ 114 ∷ []); type = 0x81 }
    ∷ record { name = some (114 ∷ 101 ∷ 112 ∷ 108 ∷ 121 ∷ []); type = 0x82 }
    ∷ record { name = some (111 ∷ 117 ∷ 116 ∷ 112 ∷ 117 ∷ 116 ∷ []); type = 0x83 }
    ∷ record { name = some (111 ∷ 98 ∷ 106 ∷ 101 ∷ 99 ∷ 116 ∷ []); type = 0x84 }
    ∷ record { name = some (99 ∷ 111 ∷ 110 ∷ 102 ∷ 105 ∷ 103 ∷ []); type = 0x85 }
    ∷ record { name = some (105 ∷ 116 ∷ 101 ∷ 114 ∷ 97 ∷ 116 ∷ 111 ∷ 114 ∷ []); type = 0x86 }
    ∷ record {
      name = some (99 ∷ 111 ∷ 108 ∷ 108 ∷ 101 ∷ 99 ∷ 116 ∷ 105 ∷ 111 ∷ 110 ∷ []);
      type = 0x87;
    }
    ∷ record { name = some (115 ∷ 111 ∷ 108 ∷ 118 ∷ 101 ∷ 114 ∷ []); type = 0x88 }
    ∷ []

-- Whether there is memory for the table, for each built-in entry, and for a new entry.
pub record TableMemory : Type 0 where
  pub table : Bool
  pub core : ℕ → Bool
  pub entry : Bool

-- The loop of `_interfaces_init`: a built-in entry without memory is left out.
abbrev core_entries : (ℕ → Bool) → ℕ → List Named → Table
core_entries room i [] = []
core_entries room i (e ∷ es) = (if room i then some e else none) ∷ core_entries room (i + 1) es

-- The table behind `_interfaces_init`, up to the place for the first registered interface.
abbrev pub core_table : TableMemory → Table
core_table m = core_entries m.core 0 core_interfaces ++ replicate 7 none

-- `_interfaces_init`, which is called while the table, `interface_types`, is null, with
-- `interface_pos` 0.
abbrev pub interfaces_init : TableMemory → Option Table → Option Table
interfaces_init m none = if m.table then some (core_table m) else none
interfaces_init m (some es) = some es

-- The addition behind `_interfaces_init`; an entry is written to a null table.
abbrev pub add_entry_in :
    Option Table → Option (List ℕ) → (room : Bool) → Run (Option Table × Option Named)
add_entry_in none none room = if room then fault else done (none, none)
add_entry_in none (some n) room =
    if ltb (length n) 4 then done (none, none) else if room then fault else done (none, none)
add_entry_in (some es) name room = let r = add_to_table es name room in done (some r.0, r.1)

abbrev table_size : Option Table → ℕ
table_size none = 0
table_size (some es) = length es

-- `mpt_type_interface_add`
unfoldable pub type_interface_add :
    Option Table → Option (List ℕ) → TableMemory → Run (Option Table × Option Named)
type_interface_add s name m =
    if leb 64 (table_size s)
    then done (s, none)
    else add_entry_in (interfaces_init m s) name m.entry

-- What a place of the table holds, which is zero behind `interface_pos`.
abbrev pub in_place : Option (Option Named) → Option Named
in_place none = none
in_place (some o) = o

-- The entry at a place; the place 0 of a null table is read.
abbrev interface_at : Option Table → ℕ → Run (Option Table × Option Named)
interface_at none i = if ltb 0 i then done (none, none) else fault
interface_at (some es) i =
    done (some es, if ltb (length es) i then none else in_place (get_elem? es i))

-- `mpt_interface_traits`
unfoldable pub interface_traits : Option Table → ℕ → TableMemory → Run (Option Table × Option Named)
interface_traits s type m =
    if ltb 0xbf type || ltb type 0x80
    then done (s, none)
    else interface_at (interfaces_init m s) (type - 0x80)
