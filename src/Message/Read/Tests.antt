-- ===== src/Message/Read/Tests.antt =====
-- A run of reading, and the theorem at a message in three parts.
use mpt_base.Prelude.{◌+◌, ◌≡◌, refl, [], ◌∷◌}
use mpt_base.Message.Read.{PartedMessage, message_read, message_length, read_loop}
use mpt_base.Message.Read.Laws.{IsReading, data_of, message_read_lem}

abbrev parted : PartedMessage
parted = record { base = 1 ∷ 2 ∷ []; cont = [] ∷ (3 ∷ 4 ∷ []) ∷ [] }

read_run : (message_read parted 3).copied ≡ 1 ∷ 2 ∷ 3 ∷ []
unfolding message_read read_loop
read_run = refl

message_read_lem_example :
    IsReading (data_of parted) 3 (message_read parted 3)
    × (message_length (message_read parted 3).msg + (message_read parted 3).total
        ≡ message_length parted)
message_read_lem_example = message_read_lem parted 3
