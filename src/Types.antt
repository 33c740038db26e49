-- ===== src/Types.antt =====
-- mptcore/types/type_traits.c: the types that a program registers, with their numbers.
pub mod Chunks
pub mod Add
pub mod Names
pub mod Metas
pub mod Interface
mod Tests
use mpt_base.Prelude.{
  ℕ, ◌+◌, ◌-◌, Bool, true, false, not, ◌&&◌, ◌||◌, ◌==◌, ltb, leb, if◌then◌else◌, Option, none,
  some, List, [], ◌∷◌, ◌++◌, length, get_elem?, Result, ok, err, bad_argument, bad_operation,
  bad_type, missing_buffer, Run, done, fault,
}
use mpt_base.Prelude.Mem.{sub_size}
use mpt_base.Array.{Traits}

-- A list of chunks for 30 entries each, as `struct generic_traits_chunk` and
-- `struct named_traits_chunk`; a chunk is the list of the entries in use.
abbrev pub Chunks : Type 0 → Type 0
Chunks A = List (List A)

-- The entry with a number, from the first chunk's on.
unfoldable pub find_entry : {A : Type 0} → Chunks A → ℕ → Option A
find_entry [] i = none
find_entry (c ∷ cs) i = if ltb i (length c) then get_elem? c i else find_entry cs (sub_size i 30)

-- A generic type in the first chunk that is not full, from number `pos` on; `room` tells whether
-- there is memory for a chunk.
unfoldable pub add_entry :
    Chunks Traits → (pos : ℕ) → Traits → (room : Bool) → Chunks Traits × Result ℕ
add_entry [] pos t room =
    if ltb 0xfff pos
    then ([], err bad_type)
    else if room
    then ((t ∷ []) ∷ [], ok pos)
    else ([], err bad_operation)
add_entry (c ∷ cs) pos t room =
    let rest = add_entry cs (pos + 30) t room in
    if length c == 30
    then (c ∷ rest.0, rest.1)
    else if ltb 0xfff (pos + length c)
    then (c ∷ cs, err bad_type)
    else ((c ++ t ∷ []) ∷ cs, ok (pos + length c))

-- `mpt_type_add`
unfoldable pub type_add : Chunks Traits → Option Traits → (room : Bool) → Chunks Traits × Result ℕ
type_add cs none room = (cs, err bad_argument)
type_add cs (some t) room =
    if t.size == 0 then (cs, err bad_argument) else add_entry cs 0x900 t room

-- `mpt_type_traits` for a number from `_TypeValueAdd` on.
unfoldable pub generic_traits : Chunks Traits → ℕ → Option Traits
generic_traits cs type = find_entry cs (sub_size type 0x900)

-- `mpt_type_basic_add`, on the sizes that are registered; `room` tells whether there is memory for
-- their table.
unfoldable pub type_basic_add : List ℕ → (size : ℕ) → (room : Bool) → List ℕ × Result ℕ
type_basic_add sizes size room =
    let n = if size == 0 then 8 else size in
    if length sizes == 0 && not room
    then (sizes, err bad_operation)
    else if ltb (length sizes) 64
    then (sizes ++ n ∷ [], ok (0xc0 + length sizes))
    else (sizes, err missing_buffer)

-- `mpt_type_traits` for a basic type: the size.
unfoldable pub basic_size : List ℕ → ℕ → Option ℕ
basic_size sizes type =
    if leb (length sizes) (type - 0xc0) then none else get_elem? sizes (type - 0xc0)

-- `MPT_STRUCT(named_traits)`: the name, if there is one, and the number.
pub record Named : Type 0 where
  pub name : Option (List ℕ)
  pub type : ℕ

-- `strcmp` on names, which have no zero bytes.
unfoldable pub same_name : List ℕ → List ℕ → Bool
same_name [] [] = true
same_name [] (d ∷ ds) = false
same_name (c ∷ cs) [] = false
same_name (c ∷ cs) (d ∷ ds) = c == d && same_name cs ds

abbrev pub has_name : List ℕ → Named → Bool
has_name n e = elim e.name [ none ↦ false | some m ↦ same_name n m ]

-- The first entry of a name.
unfoldable pub find_name : List ℕ → List Named → Option Named
find_name n [] = none
find_name n (e ∷ es) = if has_name n e then some e else find_name n es

unfoldable pub named_entry : List ℕ → Chunks Named → Option Named
named_entry n [] = none
named_entry n (c ∷ cs) = elim (find_name n c) [ none ↦ named_entry n cs | some e ↦ some e ]

-- An entry stored in a chunk with space.
abbrev pub store_meta :
    List Named → (pos : ℕ) → Option (List ℕ) → (room : Bool) → List Named × Option Named
store_meta c pos name room =
    if ltb 0x7ff (pos + length c) || not room
    then (c, none)
    else (let e : Named = record { name = name; type = pos + length c } in (c ++ e ∷ [], some e))

-- A metatype in the first chunk that is not full; `chunk_room` and `room` tell whether there is
-- memory for a chunk and for the entry.
unfoldable pub add_meta :
    Chunks Named
    → (pos : ℕ) → Option (List ℕ)
    → (chunk_room room : Bool) → Chunks Named × Option Named
add_meta [] pos name chunk_room room =
    if chunk_room then (let r = store_meta [] pos name room in (r.0 ∷ [], r.1)) else ([], none)
add_meta (c ∷ cs) pos name chunk_room room =
    let rest = add_meta cs (pos + 30) name chunk_room room in
    let here = store_meta c pos name room in
    if length c == 30
    then (if ltb 0x7ff (pos + 30) then (c ∷ cs, none) else (c ∷ rest.0, rest.1))
    else (here.0 ∷ cs, here.1)

-- `mpt_type_metatype_add` on the chunks that there are.
unfoldable pub add_chunks :
    Chunks Named → Option (List ℕ) → (chunk_room room : Bool) → Chunks Named × Option Named
add_chunks cs none chunk_room room = add_meta cs 0x100 none chunk_room room
add_chunks cs (some n) chunk_room room =
    if ltb (length n) 4 then (cs, none) else elim (named_entry n cs) [
      | some e ↦ (cs, none)
      | none ↦ add_meta cs 0x100 (some n) chunk_room room
    ]

-- `meta_types`: null, a first chunk whose `next` was never written, or the chunks.
pub data Metatypes : Type 0 where
  absent : Metatypes
  unlinked : List Named → Metatypes
  linked : List Named → Chunks Named → Metatypes

-- Whether there is memory for the first chunk, the first entry, a further chunk and an entry.
pub record MetaMemory : Type 0 where
  pub first : Bool
  pub base : Bool
  pub chunk : Bool
  pub entry : Bool

abbrev pub metatype : Named
metatype = record { name = some (109 ∷ 101 ∷ 116 ∷ 97 ∷ 116 ∷ 121 ∷ 112 ∷ 101 ∷ []); type = 0x100 }

-- `_meta_init`, which is called while there is no chunk.
abbrev pub meta_init : MetaMemory → Metatypes → Metatypes
meta_init m absent =
    if not m.first then absent else if m.base then linked (metatype ∷ []) [] else unlinked []
meta_init m (unlinked c) = unlinked c
meta_init m (linked c cs) = linked c cs

abbrev pub as_linked : Chunks Named × Option Named → Metatypes × Option Named
as_linked ([], r) = (absent, r)
as_linked (c ∷ cs, r) = (linked c cs, r)

-- An entry in a first chunk without a `next`, which is read if the chunk is full.
abbrev add_unlinked : List Named → Option (List ℕ) → (room : Bool) → Run (Metatypes × Option Named)
add_unlinked c name room =
    let here = store_meta c 0x100 name room in
    if length c == 30 then fault else done (unlinked here.0, here.1)

-- The addition after `_meta_init`: the chunk of a null pointer is read unless the name is short.
abbrev pub add_metatype : Metatypes → Option (List ℕ) → MetaMemory → Run (Metatypes × Option Named)
add_metatype absent none m = fault
add_metatype absent (some n) m = if ltb (length n) 4 then done (absent, none) else fault
add_metatype (unlinked c) none m = add_unlinked c none m.entry
add_metatype (unlinked c) (some n) m =
    if ltb (length n) 4
    then done (unlinked c, none)
    else elim (find_name n c) [ some e ↦ done (unlinked c, none) | none ↦ fault ]
add_metatype (linked c cs) name m = done (as_linked (add_chunks (c ∷ cs) name m.chunk m.entry))

-- `mpt_type_metatype_add`
unfoldable pub type_metatype_add :
    Metatypes → Option (List ℕ) → MetaMemory → Run (Metatypes × Option Named)
type_metatype_add s name m = add_metatype (meta_init m s) name m

-- The entry at a place of the chunks.
abbrev pub meta_at : Metatypes → ℕ → Run (Metatypes × Option Named)
meta_at absent i = done (absent, none)
meta_at (unlinked c) i = if ltb i (length c) then done (unlinked c, get_elem? c i) else fault
meta_at (linked c cs) i = done (linked c cs, find_entry (c ∷ cs) i)

-- `mpt_metatype_traits`
unfoldable pub metatype_traits : Metatypes → ℕ → MetaMemory → Run (Metatypes × Option Named)
metatype_traits s type m =
    if ltb 0x7ff type || ltb type 0x100
    then done (s, none)
    else meta_at (meta_init m s) (type - 0x100)
