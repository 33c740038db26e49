-- ===== src/Event/Command.antt =====
-- mptcore/event/command_get.c and command_set.c: the table of commands with their handlers.
pub mod Laws
mod Tests
use mpt_base.Prelude.{
  ℕ, suc, ◌+◌, Bool, true, false, ◌&&◌, ◌==◌, if◌then◌else◌, Option, none, some, List, [], ◌∷◌,
  ◌++◌, set, get_elem?, Result, ok, err, bad_operation,
}

-- `MPT_STRUCT(command)`; a null handler marks a place that is not in use.
pub record Command : Type 0 where
  pub id : ℕ
  pub cmd : Option ℕ
  pub arg : ℕ

-- The commands in the array's buffer, if it has one.
abbrev pub Table : Type 0
Table = Option (List Command)

abbrev pub is_active : Command → ℕ → Bool
is_active c id = elim c.cmd [ none ↦ false | some h ↦ id == c.id ]

-- A place behind the first element, and the element at a place.
abbrev pub next_place : Option ℕ → Option ℕ
next_place none = none
next_place (some i) = some (suc i)

abbrev pub at_place : List Command → Option ℕ → Option Command
at_place cs none = none
at_place cs (some i) = get_elem? cs i

-- `mpt_command_find`: the place of the active command with an identifier.
unfoldable pub command_find : List Command → ℕ → Option ℕ
command_find [] id = none
command_find (c ∷ cs) id = if is_active c id then some 0 else next_place (command_find cs id)

-- `mpt_command_empty`: the first place that is not in use.
unfoldable pub command_empty : List Command → Option ℕ
command_empty [] = none
command_empty (c ∷ cs) = elim c.cmd [ none ↦ some 0 | some h ↦ next_place (command_empty cs) ]

-- `mpt_command_get`
unfoldable pub command_get : Table → ℕ → Option Command
command_get none id = none
command_get (some cs) id = at_place cs (command_find cs id)

-- A call of a handler to end its use: the handler and its argument.
abbrev pub Calls : Type 0
Calls = List (ℕ × ℕ)

abbrev pub ends : Option Command → Calls
ends none = []
ends (some c) = elim c.cmd [ none ↦ [] | some h ↦ (h, c.arg) ∷ [] ]

-- A command put in the list, where no active one has its identifier; `room` tells whether there is
-- memory.
unfoldable pub place_command : List Command → Command → (room : Bool) → List Command × Result ℕ
place_command cs c room = elim (command_empty cs) [
  | some i ↦ (set cs i c, ok 0)
  | none ↦ if room then (cs ++ c ∷ [], ok 1) else (cs, err bad_operation)
]

-- `mpt_command_set`, with the calls that it makes.
unfoldable pub command_set :
    Table → (id : ℕ) (cmd : Option ℕ) (arg : ℕ) → (room : Bool) → Table × Result ℕ × Calls
command_set none id cmd arg room =
    if room
    then (some (record { id = id; cmd = cmd; arg = arg } ∷ []), ok 1, [])
    else (none, err bad_operation, [])
command_set (some cs) id cmd arg room =
    let c : Command = record { id = id; cmd = cmd; arg = arg } in
    elim (command_find cs id) [
      | some i ↦ (some (set cs i c), ok (elim cmd [ none ↦ 2 | some h ↦ 0 ]), ends (get_elem? cs i))
      | none ↦ (let r = place_command cs c room in (some r.0, r.1, []))
    ]

-- `mpt_command_clear`, with the calls that it makes.
abbrev pub ended_calls : List Command → Calls
ended_calls [] = []
ended_calls (c ∷ cs) = ends (some c) ++ ended_calls cs

unfoldable pub command_clear : Table → Table × Calls
command_clear none = (none, [])
command_clear (some cs) = (some [], ended_calls cs)
