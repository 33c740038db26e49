-- ===== src/Message/Get/Tests.antt =====
-- Parts of a queue whose data wraps.
use mpt_base.Prelude.{
  ◌+◌, ◌≡◌, refl, true, false, some, ok, err, bad_type, bad_value, bad_argument, arith,
}
use mpt_base.Queue.{Queue}
use mpt_base.Queue.Contents.{IsValid}
use mpt_base.Message.Get.{Gets, message_get, message_get_lem}

-- Three bytes over five places: two at the end of the memory, and one at its start.
abbrev wrapped : Queue
wrapped = record { bytes = λ a. a + 10; mapped = true; len = 3; max = 5; off = 3 }

wrapped-IsValid : IsValid wrapped
wrapped-IsValid = omega arith

message_get_lem_example : Gets wrapped 1 2 (message_get wrapped 1 2 true)
message_get_lem_example = message_get_lem wrapped 1 2 wrapped-IsValid (omega arith)

both_parts : message_get wrapped 1 2 true ≡ ok (record { base = 4; used = 1; upper = some 1 })
unfolding message_get
both_parts = refl

no_second_part : message_get wrapped 1 2 false ≡ err bad_type
unfolding message_get
no_second_part = refl

too_long : message_get wrapped 1 3 true ≡ err bad_value
unfolding message_get
too_long = refl

behind_end : message_get wrapped 4 0 true ≡ err bad_argument
unfolding message_get
behind_end = refl
