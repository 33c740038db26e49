-- ===== src/Types/Interface/Laws.antt =====
-- What the registration of an interface does.
use mpt_base.Prelude.{
  ℕ, ◌+◌, ◌<◌, ◌≤◌, ◌≡◌, Bool, true, false, Option, none, some, List, length, Run, done, ◌⊎◌,
}
use mpt_base.Types.{Named}
use mpt_base.Types.Interface.{Table, TableMemory, find_interface, core_table, interface_traits}

-- The registry before an addition: the table, or nothing yet, with memory for the table.
pub data HasTable (m : TableMemory) : Option Table → Table → Type 0 where
  fresh : m.table ≡ true → HasTable m none (core_table m)
  there : (es : Table) → HasTable m (some es) es

-- What an addition of a named interface ends with.
pub data Interfaces (es : Table) (n : List ℕ) (room : Bool) (r : Run (Option Table × Option Named))
    : Type 0 where
  no_interface :
      r ≡ done (some es, none)
      → ((room ≡ false)
          ⊎ (64 ≤ length es)
          ⊎ (length n < 4)
          ⊎ ((e : Named) × (find_interface n es ≡ some e)))
      → Interfaces es n room r
  new_interface :
      (es' : Table) (e : Named)
      → r ≡ done (some es', some e)
      → find_interface n es ≡ none
      → e.type ≡ 0x80 + length es
      → ((m : TableMemory) → interface_traits (some es') e.type m ≡ done (some es', some e))
      → find_interface n es' ≡ some e
      → ((type : ℕ) (m : TableMemory) (o : Option Named)
          → type < e.type
          → interface_traits (some es) type m ≡ done (some es, o)
          → interface_traits (some es') type m ≡ done (some es', o))
      → Interfaces es n room r

module _ (es : Table) (n : List ℕ) (h : length es < 64) where
  abbrev entry : Named
  entry = record { name = some n; type = 0x80 + length es }
