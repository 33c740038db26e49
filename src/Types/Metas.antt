-- ===== src/Types/Metas.antt =====
-- mptcore/types/type_traits.c: the registration of metatypes.
use mpt_base.Prelude.{
  ℕ, ◌+◌, ◌<◌, ◌≡◌, true, false, ◌&&◌, Option, none, some, List, [], ◌∷◌, ◌++◌, length, Run, done,
  ◌⊎◌,
}
use mpt_base.Types.{
  Chunks, Named, named_entry, metatype_traits, Metatypes, MetaMemory, absent, linked, metatype,
}
use mpt_base.Types.Chunks.{entries, IsFilled}
use mpt_base.Types.Names.{Names}

-- What an addition of a named metatype ends with: nothing new, for one of the reasons, or an entry
-- with the next number, by which and by whose name it is found.
pub data Metas (c : List Named) (cs : Chunks Named) (n : List ℕ) (m : MetaMemory)
    (r : Run (Metatypes × Option Named)) : Type 0 where
  no_metatype :
      (c' : List Named) (cs' : Chunks Named)
      → r ≡ done (linked c' cs', none)
      → entries (c' ∷ cs') ≡ entries (c ∷ cs)
      → IsFilled (c' ∷ cs')
      → ((length n < 4)
          ⊎ (¬ (named_entry n (c ∷ cs) ≡ none))
          ⊎ (m.chunk && m.entry ≡ false)
          ⊎ (0x7ff < 0x100 + length (entries (c ∷ cs))))
      → Metas c cs n m r
  new_metatype :
      (c' : List Named) (cs' : Chunks Named) (e : Named)
      → r ≡ done (linked c' cs', some e)
      → named_entry n (c ∷ cs) ≡ none
      → IsFilled (c' ∷ cs')
      → e.type ≡ 0x100 + length (entries (c ∷ cs))
      → entries (c' ∷ cs') ≡ entries (c ∷ cs) ++ e ∷ []
      → ((m' : MetaMemory)
          → metatype_traits (linked c' cs') e.type m' ≡ done (linked c' cs', some e))
      → named_entry n (c' ∷ cs') ≡ some e
      → Metas c cs n m r

-- The state of the registry before an addition: nothing yet, with memory for the first chunk and
-- its built-in entry, or chunks of which all but the last one are full.
pub data IsReady (m : MetaMemory) : Metatypes → List Named → Chunks Named → Type 0 where
  initial : m.first ≡ true → m.base ≡ true → IsReady m absent (metatype ∷ []) []
  filled : (c : List Named) (cs : Chunks Named) → IsFilled (c ∷ cs) → IsReady m (linked c cs) c cs
