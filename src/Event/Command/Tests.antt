-- ===== src/Event/Command/Tests.antt =====
-- A table of commands at examples.
use mpt_base.Prelude.{◌≡◌, refl, true, none, some, [], ◌∷◌, ok}
use mpt_base.Event.Command.{
  Table, command_find, command_empty, command_get, place_command, command_set, command_clear,
}
use mpt_base.Event.Command.Laws.{Sets, command_set-Sets}

-- Two commands in use, with a place between them that is not.
abbrev table : Table
table = some (
    record { id = 1; cmd = some 10; arg = 100 }
    ∷ record { id = 5; cmd = none; arg = 0 }
    ∷ record { id = 2; cmd = some 20; arg = 200 }
    ∷ [])

command_set-Sets_example :
    Sets table
      (record { id = 2; cmd = some 30; arg = 300 })
      true
      (command_set table 2 (some 30) 300 true)
command_set-Sets_example = command_set-Sets table 2 30 300 true

replaced : (command_set table 2 (some 30) 300 true).2 ≡ (20, 200) ∷ []
unfolding command_set command_find
replaced = refl

filled : (command_set table 5 (some 30) 300 true).1 ≡ ok 0
unfolding command_set command_find command_empty place_command
filled = refl

removed : command_get (command_set table 1 none 0 true).0 1 ≡ none
unfolding command_set command_get command_find
removed = refl

cleared : (command_clear table).1 ≡ (10, 100) ∷ (20, 200) ∷ []
unfolding command_clear
cleared = refl
